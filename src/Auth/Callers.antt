-- ===== src/Auth/Callers.antt =====
-- Which callers are in the list of allowed callers (src/lastore-daemon/manager_auth.go).
use lastore_daemon.Base.{
  Bool, true, false, not, ◌&&◌, ◌||◌, List, [], ◌∷◌, Option, none, some, String, str_eq, str_eq_iff,
  str_eq_self, if◌then◌else◌, any, keep, ◌≡◌, arith, Bool-cases, inl, inr, ◌∙◌, ap, subst,
}
use lastore_daemon.Auth.{
  Strv, IsStrv, CallerState, Auth, Bus, Disk, is_valid, remove_file, save_file,
  persist_allow_caller_state, add_allow_caller, remove_allow_caller, load_allow_caller,
}

pub any-keep :
    (p : String → Bool) (y : String) (l : List String)
    → any (str_eq y) (keep p l) ≡ (p y && any (str_eq y) l)
any-keep p y [] = ground arith
any-keep p y (x ∷ l) = elim (Bool-cases (str_eq y x)) [
  | inl e ↦
      subst (λ x. any (str_eq y) (keep p (x ∷ l)) ≡ (p y && any (str_eq y) (x ∷ l)))
        ((str_eq_iff y x).0 e) (ground (arith, any-keep p y l, str_eq_self y))
  | inr e ↦ ground (arith, any-keep p y l)
]

abbrev pub is_none {ℓ} : {A : Type ℓ} → Option A → Bool
is_none none = true
is_none (some a) = false

module _ (strv : Strv) where
  remove_file-callers : (disk : Disk) (s : Auth) → (remove_file strv disk s).0.callers ≡ s.callers
  remove_file-callers disk s = ground arith

  save_file-callers :
      (disk : Disk) (state : CallerState) (s : Auth)
      → (save_file strv disk state s).0.callers ≡ s.callers
  save_file-callers disk state s = ground arith

  persist-callers :
      (bus : Bus) (disk : Disk) (callers : List String) (s : Auth)
      → (persist_allow_caller_state strv bus disk callers s).0.callers ≡ s.callers
  unfolding persist_allow_caller_state
  persist-callers bus disk callers s = ground arith

  module _ (laws : IsStrv strv) where
    open laws use {contains_any, contains-add, contains-delete, delete_found}

    -- Whoever is added, exactly that name joins the list of allowed callers, when there is no error; and
    -- then it is the unique name of a connection, which owns it now. With an error, and a failing write of
    -- the file is one, the list is as before.
    pub add_allow_caller-contains :
        (bus : Bus) (disk : Disk) (name y : String) (s : Auth)
        → let (s', error) = add_allow_caller strv bus disk name s in
          (strv.contains s'.callers y ≡ (
            if is_none error
            then str_eq y name || strv.contains s.callers y
            else strv.contains s.callers y))
          × ((is_none error && not (is_valid strv bus name)) ≡ false)
    unfolding add_allow_caller
    add_allow_caller-contains bus disk name y s =
        let added = (strv.add s.callers name).0 in
        ground (
          arith,
          contains-add s.callers name y,
          persist-callers bus disk added (record s { callers = added }),
        )

    -- After the removal of a name, the others that were in the list are in it, and the name is not,
    -- whether or not the file could be written.
    pub remove_allow_caller-contains :
        (bus : Bus) (disk : Disk) (name y : String) (s : Auth)
        → strv.contains (remove_allow_caller strv bus disk name s).callers y
          ≡ (not (str_eq y name) && strv.contains s.callers y)
    unfolding remove_allow_caller
    remove_allow_caller-contains bus disk name y s =
        let left = (strv.delete s.callers name).0 in
        ground (
          arith,
          contains-delete s.callers name y,
          delete_found s.callers name,
          str_eq_iff y name,
          persist-callers bus disk left (record s { callers = left }),
        )

    pub contains_none : (y : String) → strv.contains [] y ≡ false
    contains_none y = contains_any [] y

    load_allow_caller-callers :
        (bus : Bus) (disk : Disk) (state : CallerState) (id : String) (s : Auth)
        → bus.id ≡ some id
        → (load_allow_caller strv bus disk (some (some state)) s).callers
          ≡ (if str_eq state.bus_id id then keep (is_valid strv bus) state.callers else [])
    unfolding load_allow_caller
    load_allow_caller-callers bus disk state id s e = ground arith

    pub load_allow_caller-contains :
        (bus : Bus) (disk : Disk) (state : CallerState) (id y : String) (s : Auth)
        → bus.id ≡ some id
        → strv.contains (load_allow_caller strv bus disk (some (some state)) s).callers y
          ≡ (str_eq state.bus_id id && is_valid strv bus y && strv.contains state.callers y)
    load_allow_caller-contains bus disk state id y s e =
        let valid = keep (is_valid strv bus) state.callers in
        elim (Bool-cases (str_eq state.bus_id id)) [
          | inl same ↦
              ap (λ l. strv.contains l y)
                (load_allow_caller-callers bus disk state id s e
                  ∙ ap (λ b. if b then valid else []) same)
              ∙ ground (
                arith,
                contains_any valid y,
                any-keep (is_valid strv bus) y state.callers,
                contains_any state.callers y,
              )
          | inr other ↦
              ap (λ l. strv.contains l y)
                (load_allow_caller-callers bus disk state id s e
                  ∙ ap (λ b. if b then valid else []) other)
              ∙ ground (arith, contains_none y)
        ]
