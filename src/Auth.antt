-- ===== src/Auth.antt =====
-- Who may call the methods of the daemon (src/lastore-daemon/manager_auth.go, manager.go).
pub mod Callers
pub mod History
pub mod Kept
pub mod Examples
use text.Mathlib.Text.{starts_with}
use lastore_daemon.Base.{
  ℕ, Bool, true, false, not, ◌&&◌, ◌||◌, List, [], ◌∷◌, Option, none, some, String, str_eq, ◌==◌,
  if◌then◌else◌, any, keep, ◌≡◌,
}
use lastore_daemon.System.{Error, message}

-- The lists of texts of the library `strv`.
pub record Strv : Type 0 where
  pub contains : List String → String → Bool
  pub add : List String → String → List String × Bool
  pub delete : List String → String → List String × Bool
  pub filter_empty : List String → List String
  pub uniq : List String → List String
  pub equal : List String → List String → Bool

-- What the library documents, as far as it matters which texts are in a list.
pub record IsStrv (strv : Strv) : Type 0 where
  pub contains_any : (l : List String) (x : String) → strv.contains l x ≡ any (str_eq x) l
  pub contains-add :
      (l : List String) (x y : String)
      → strv.contains (strv.add l x).0 y ≡ (str_eq y x || strv.contains l y)
  pub contains-delete :
      (l : List String) (x y : String)
      → strv.contains (strv.delete l x).0 y ≡ (not (str_eq y x) && strv.contains l y)
  pub delete_found : (l : List String) (x : String) → (strv.delete l x).1 ≡ strv.contains l x
  pub contains-filter_empty :
      (l : List String) (x : String)
      → strv.contains (strv.filter_empty l) x ≡ (not (str_eq x "") && strv.contains l x)
  pub contains-uniq :
      (l : List String) (x : String) → strv.contains (strv.uniq l) x ≡ strv.contains l x

-- `allowCallerState`, as the file keeps it.
pub record CallerState : Type 0 where
  pub bus_id : String
  pub callers : List String

-- The list of allowed callers, and the file.
pub record Auth : Type 0 where
  pub callers : List String
  pub file : Option CallerState

-- The bus: its id, and the owner of a name; none is an error.
pub record Bus : Type 0 where
  pub id : Option String
  pub owner : String → Option String

-- What a write ends with: no error, or an error and what is then in the file.
pub data Write : Type 0 where
  written : Write
  failing : Error → Option CallerState → Write

-- The answers of the file system: the errors of a removal and of making the folder, and the write.
pub record Disk : Type 0 where
  pub remove_error : Option Error
  pub mkdir_error : Option Error
  pub write : Write

abbrev pub is_allow_caller_unique_name : String → Bool
is_allow_caller_unique_name name = starts_with name ":"

-- `initTrustedCallerUIDs`, with the user number of lightdm or none for an error.
abbrev pub init_trusted_caller_uids : Option ℕ → List ℕ
init_trusted_caller_uids none = []
init_trusted_caller_uids (some uid) = uid ∷ []

module _ (strv : Strv) where
  unfoldable pub is_trusted_sender : List ℕ → ℕ → String → Auth → Bool
  is_trusted_sender trusted_uids uid sender s =
      if uid == 0
      then true
      else if any (λ u. u == uid) trusted_uids
      then true
      else strv.contains s.callers sender

  -- `checkInvokePermission`: whether there is no error. `uid` is the sender's user, none for an error,
  -- and `polkit` is whether polkit lets the sender through.
  unfoldable pub check_invoke_permission : List ℕ → Option ℕ → Bool → String → Auth → Bool
  unfolding is_trusted_sender
  check_invoke_permission trusted_uids none polkit sender s = false
  check_invoke_permission trusted_uids (some uid) polkit sender s =
      if is_trusted_sender trusted_uids uid sender s then true else polkit

  abbrev pub remove_file : Disk → Auth → Auth × Option Error
  remove_file disk s = elim disk.remove_error [
    | none ↦ (record s { file = none }, none)
    | some e ↦ (s, some e)
  ]

  abbrev pub save_file : Disk → CallerState → Auth → Auth × Option Error
  save_file disk state s = elim disk.write [
    | written ↦ (record s { file = some state }, none)
    | failing e left ↦ (record s { file = left }, some e)
  ]

  -- `persistAllowCallerState`; a file that is missing is no error for its removal.
  unfoldable pub persist_allow_caller_state : Bus → Disk → List String → Auth → Auth × Option Error
  persist_allow_caller_state bus disk callers s =
      let callers' = strv.uniq (strv.filter_empty callers) in
      elim callers' [
        | [] ↦ remove_file disk s
        | c ∷ cs ↦ elim bus.id [
          | none ↦ (s, some (message "no bus id"))
          | some id ↦ elim disk.mkdir_error [
            | some e ↦ (s, some e)
            | none ↦ save_file disk (record { bus_id = id; callers = c ∷ cs }) s
          ]
        ]
      ]

  -- `addAllowCaller`
  unfoldable pub add_allow_caller : Bus → Disk → String → Auth → Auth × Option Error
  unfolding persist_allow_caller_state
  add_allow_caller bus disk name s =
      if is_allow_caller_unique_name name
      then (elim (bus.owner name) [
        | none ↦ (s, some (message "no owner"))
        | some owner ↦
            if str_eq owner name
            then (let added = (strv.add s.callers name).0 in
                let (s', error) =
                  persist_allow_caller_state bus disk added (record s { callers = added }) in
                elim error [
                  | none ↦ (s', none)
                  | some e ↦ (record s' { callers = s.callers }, some e)
                ])
            else (s, some (message "not owned by current dbus connection"))
      ])
      else (s, some (message "not a dbus unique name"))

  -- `removeAllowCaller`; an error of the file is logged.
  unfoldable pub remove_allow_caller : Bus → Disk → String → Auth → Auth
  unfolding persist_allow_caller_state
  remove_allow_caller bus disk name s =
      let (left, removed) = strv.delete s.callers name in
      if removed
      then (persist_allow_caller_state bus disk left (record s { callers = left })).0
      else s

  -- The loop over the recorded callers.
  abbrev pub is_valid : Bus → String → Bool
  is_valid bus name =
      is_allow_caller_unique_name name
      && (elim (bus.owner name) [ none ↦ false | some owner ↦ str_eq owner name ])

  -- `loadAllowCaller`; `read` is what `readAllowCallerState` makes of the file, none for an error.
  unfoldable pub load_allow_caller : Bus → Disk → Option (Option CallerState) → Auth → Auth
  load_allow_caller bus disk none s = s
  load_allow_caller bus disk (some none) s = s
  load_allow_caller bus disk (some (some state)) s = elim bus.id [
    | none ↦ s
    | some id ↦
        if str_eq state.bus_id id
        then (let valid = keep (is_valid bus) state.callers in
            let s' = record s { callers = valid } in
            if strv.equal valid state.callers then s' else elim valid [
              | [] ↦ (remove_file disk s').0
              | c ∷ cs ↦ (save_file disk (record { bus_id = id; callers = c ∷ cs }) s').0
            ])
        else (remove_file disk (record s { callers = [] })).0
  ]

  -- `readAllowCallerState` of a file that can be read: empty names and repeated ones are left out.
  abbrev pub read_allow_caller_state : Option CallerState → Option CallerState
  read_allow_caller_state none = none
  read_allow_caller_state (some state) =
      some (record state { callers = strv.uniq (strv.filter_empty state.callers) })
