-- ===== src/Auth/Kept.antt =====
-- The list of allowed callers over a restart (src/lastore-daemon/manager_auth.go).
use lastore_daemon.Base.{
  Bool, true, false, not, ◌&&◌, List, [], ◌∷◌, none, some, String, str_eq, str_eq_iff, str_eq_self,
  ◌≡◌, refl, arith, Option-cases, Bool-cases, inl, inr, ◌∙◌, ap, subst, ◌⊎◌,
}
use lastore_daemon.Auth.{
  Strv, IsStrv, CallerState, Auth, Bus, Disk, is_allow_caller_unique_name, is_valid,
  persist_allow_caller_state, add_allow_caller, load_allow_caller, read_allow_caller_state,
}
use lastore_daemon.Auth.Callers.{load_allow_caller-contains, contains_none}
use lastore_daemon.Auth.History.{new_auth}

list_cases : (l : List String) → (l ≡ []) ⊎ ((c : String) × (cs : List String) × (l ≡ c ∷ cs))
list_cases [] = inl refl
list_cases (c ∷ cs) = inr (c, cs, refl)

unique_not_empty :
    (name : String) → is_allow_caller_unique_name name ≡ true → str_eq name "" ≡ false
unique_not_empty name h = elim (Bool-cases (str_eq name "")) [
  | inl e ↦ absurd (
      ground
        (arith, subst (λ x. is_allow_caller_unique_name x ≡ true) ((str_eq_iff name "").0 e) h))
  | inr e ↦ e
]

-- An empty name is left out when the names are written and again when they are read, and is not valid.
same_names :
    (b v e w2 w1 a c : Bool)
    → b ≡ true
    → w2 ≡ (not e && w1)
    → w1 ≡ (not e && a)
    → c ≡ a
    → (v ≡ true → e ≡ false)
    → (b && v && w2) ≡ (v && c)
same_names b v e w2 w1 a c hb h2 h1 hc f = elim (Bool-cases v) [
  | inl t ↦ ground (arith, f t)
  | inr t ↦ ground arith
]

module _ (strv : Strv) (laws : IsStrv strv) where
  open laws use {contains-add, contains-filter_empty, contains-uniq}

  valid_unique :
      (bus : Bus) (y : String) → is_valid strv bus y ≡ true → is_allow_caller_unique_name y ≡ true
  valid_unique bus y h = ground arith

  -- The names that are written of a list.
  abbrev written_names : List String → List String
  written_names l = strv.uniq (strv.filter_empty l)

  contains-written_names :
      (l : List String) (y : String)
      → strv.contains (written_names l) y ≡ (not (str_eq y "") && strv.contains l y)
  contains-written_names l y = contains-uniq (strv.filter_empty l) y ∙ contains-filter_empty l y

  persist_file :
      (bus : Bus) (disk : Disk) (l : List String) (s s' : Auth) (c : String) (cs : List String)
      → written_names l ≡ c ∷ cs
      → persist_allow_caller_state strv bus disk l s ≡ (s', none)
      → (id : String) × (bus.id ≡ some id)
        × (s'.file ≡ some (record { bus_id = id; callers = written_names l }))
        × (s'.callers ≡ s.callers)
  unfolding persist_allow_caller_state
  persist_file bus disk l s s' c cs w h = elim (Option-cases bus.id) [
    | inl n ↦ absurd (ground arith)
    | inr (id, n) ↦ (id, n, ground arith, ground arith)
  ]

  -- An addition without an error is a persist of the longer list without one.
  added_persist :
      (bus : Bus) (disk : Disk) (name : String) (s s' : Auth)
      → add_allow_caller strv bus disk name s ≡ (s', none)
      → let added = (strv.add s.callers name).0 in
        (is_allow_caller_unique_name name ≡ true)
        × (persist_allow_caller_state strv bus disk added (record s { callers = added })
            ≡ (s', none))
  unfolding add_allow_caller
  added_persist bus disk name s s' h = elim (Bool-cases (is_allow_caller_unique_name name)) [
    | inr e ↦ absurd (ground arith)
    | inl e ↦ (e, ground arith)
  ]

  -- After a caller was added without an error, a daemon that starts with the file of then, on the bus of
  -- then, has in its list exactly the callers of before which are unique names of connections that own
  -- them still. What it cannot remove or write again does not matter.
  pub load_allow_caller-add :
      (bus bus2 : Bus) (disk disk2 : Disk) (name y : String) (s s' : Auth)
      → add_allow_caller strv bus disk name s ≡ (s', none)
      → bus2.id ≡ bus.id
      → strv.contains
          (load_allow_caller strv bus2 disk2
            (some (read_allow_caller_state strv s'.file))
            (new_auth s'.file)).callers
          y
        ≡ (is_valid strv bus2 y && strv.contains s'.callers y)
  load_allow_caller-add bus bus2 disk disk2 name y s s' h same =
      let added = (strv.add s.callers name).0 in
      let (unique, p) = added_persist bus disk name s s' h in
      elim (list_cases (written_names added)) [
        | inl w ↦ absurd (
            ground (
              arith,
              contains_none strv laws name,
              contains-written_names added name,
              contains-add s.callers name name,
              str_eq_self name,
              unique_not_empty name unique,
              ap (λ l. strv.contains l name) w,
            ))
        | inr (c, cs, w) ↦
            let (id, n, file, callers) =
              persist_file bus disk added (record s { callers = added }) s' c cs w p in
            let state : CallerState = record {
              bus_id = id;
              callers = written_names (written_names added);
            } in
            ap
              (λ f.
                strv.contains
                  (load_allow_caller strv bus2 disk2 (some (read_allow_caller_state strv f))
                    (new_auth f)).callers
                  y)
              file
            ∙ load_allow_caller-contains strv laws bus2 disk2 state id y _ (same ∙ n)
            ∙ same_names (str_eq id id) (is_valid strv bus2 y) (str_eq y "")
                (strv.contains (written_names (written_names added)) y)
                (strv.contains (written_names added) y) (strv.contains added y)
                (strv.contains s'.callers y) (str_eq_self id)
                (contains-written_names (written_names added) y) (contains-written_names added y)
                (ap (λ l. strv.contains l y) callers)
                (λ v. unique_not_empty y (valid_unique bus2 y v))
      ]
