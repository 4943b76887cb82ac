-- ===== src/Auth/History.antt =====
-- Who is let through after any sequence of calls, and what the file keeps
-- (src/lastore-daemon/manager_auth.go, manager.go).
use lastore_daemon.Base.{
  ℕ, Bool, true, false, not, ◌&&◌, ◌||◌, List, [], ◌∷◌, Option, none, some, String, str_eq,
  str_eq_iff, ◌==◌, any, ◌≡◌, refl, arith, Option-cases, Bool-cases, inl, inr, sym, subst,
}
use lastore_daemon.Auth.{
  Strv, IsStrv, CallerState, Auth, Bus, Disk, is_valid, is_trusted_sender, check_invoke_permission,
  add_allow_caller, remove_allow_caller, load_allow_caller,
}
use lastore_daemon.Auth.Callers.{
  is_none, add_allow_caller-contains, remove_allow_caller-contains, load_allow_caller-contains,
  contains_none,
}

-- The calls that change the list: `SetAllowCaller`, the loss of a bus name, and the load of the
-- file.
pub data Event : Type 0 where
  allowed : Bus → Disk → String → Event
  lost : Bus → Disk → String → Event
  loaded : Bus → Disk → Option (Option CallerState) → Event

abbrev pub new_auth : Option CallerState → Auth
new_auth file = record { callers = []; file = file }

module _ (strv : Strv) where
  unfoldable pub serve : Event → Auth → Auth
  serve (Event.allowed bus disk name) s = (add_allow_caller strv bus disk name s).0
  serve (Event.lost bus disk name) s = remove_allow_caller strv bus disk name s
  serve (Event.loaded bus disk read) s = load_allow_caller strv bus disk read s

  unfoldable pub serve_all : List Event → Auth → Auth
  serve_all [] s = s
  serve_all (e ∷ events) s = serve_all events (serve e s)

  -- Whether a call registers a sender: by its unique name, which it owns on the bus at that time, or
  -- from the file, where it stands and owns the name still.
  unfoldable pub registers : String → Event → Bool
  registers y (Event.allowed bus disk name) = str_eq y name && is_valid strv bus y
  registers y (Event.lost bus disk name) = false
  registers y (Event.loaded bus disk none) = false
  registers y (Event.loaded bus disk (some none)) = false
  registers y (Event.loaded bus disk (some (some state))) =
      is_valid strv bus y && strv.contains state.callers y

  module _ (laws : IsStrv strv) where
    serve-registers :
        (e : Event) (y : String) (s : Auth)
        → strv.contains (serve e s).callers y ≡ true
        → (strv.contains s.callers y || registers y e) ≡ true
    unfolding serve registers load_allow_caller
    serve-registers (Event.allowed bus disk name) y s h =
        let (c, v) = add_allow_caller-contains strv laws bus disk name y s in
        elim (Bool-cases (str_eq y name)) [
          | inl e ↦
              let w =
                subst
                  (λ x.
                    (is_none (add_allow_caller strv bus disk name s).1 && not (is_valid strv bus x))
                    ≡ false)
                  (sym ((str_eq_iff y name).0 e)) v in
              ground arith
          | inr e ↦ ground arith
        ]
    serve-registers (Event.lost bus disk name) y s h =
        ground (arith, remove_allow_caller-contains strv laws bus disk name y s)
    serve-registers (Event.loaded bus disk none) y s h = ground arith
    serve-registers (Event.loaded bus disk (some none)) y s h = ground arith
    serve-registers (Event.loaded bus disk (some (some state))) y s h = elim (Option-cases bus.id) [
      | inl n ↦ ground arith
      | inr (id, n) ↦ ground (arith, load_allow_caller-contains strv laws bus disk state id y s n)
    ]

    serve_all-registers :
        (events : List Event) (y : String) (s : Auth)
        → strv.contains (serve_all events s).callers y ≡ true
        → (strv.contains s.callers y || any (registers y) events) ≡ true
    unfolding serve_all
    serve_all-registers [] y s h = ground arith
    serve_all-registers (e ∷ events) y s h =
        ground (arith, serve_all-registers events y (serve e s) h, serve-registers e y s)

    -- A sender that polkit refuses is let through, after any sequence of calls to a daemon whose list
    -- is empty at first, only if its user is root or a trusted one, or if one of the calls registered
    -- the sender: by its unique name, which it owned on the bus at that time, or from the file, when it
    -- stood there and owned the name still. A sender whose user is not known is never let through.
    pub check_invoke_permission-registers :
        (events : List Event) (trusted_uids : List ℕ) (uid : Option ℕ) (sender : String)
        (file : Option CallerState)
        → check_invoke_permission strv trusted_uids uid false sender
            (serve_all events (new_auth file))
          ≡ true
        → (u : ℕ) × (uid ≡ some u)
          × (((u == 0) || any (λ v. v == u) trusted_uids || any (registers sender) events) ≡ true)
    unfolding check_invoke_permission is_trusted_sender
    check_invoke_permission-registers events trusted_uids none sender file h = absurd (ground arith)
    check_invoke_permission-registers events trusted_uids (some u) sender file h = (
      u,
      refl,
      ground (
        arith,
        contains_none strv laws sender,
        serve_all-registers events sender (new_auth file),
      ),
    )
