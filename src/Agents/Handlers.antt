-- ===== src/Agents/Handlers.antt =====
-- What the daemon does with a new session (src/lastore-daemon/manager.go). A user's number is its
-- decimal text.
pub mod Schedule
use lastore_daemon.Base.{
  Bool, true, false, List, [], ◌∷◌, Option, none, some, String, str_eq, if◌then◌else◌,
}
use lastore_daemon.Agents.{AgentMap, add_session, set_active_uid}

-- What the login manager answers on a session, by its path: whether the object can be made, its
-- type, its user, and whether it is active. None is an error.
pub record Login : Type 0 where
  pub new_session : String → Bool
  pub session_type : String → Option String
  pub session_user : String → Option String
  pub session_active : String → Option Bool

-- `getLang`; a variable that is not set is empty.
first_set : (String → String) → List String → String
first_set env [] = ""
first_set env (name ∷ names) = if str_eq (env name) "" then first_set env names else env name

unfoldable pub get_lang : (String → String) → String
unfolding first_set
get_lang env = first_set env ("LC_ALL" ∷ "LC_MESSAGE" ∷ "LANG" ∷ [])

-- `watchSession`, less the locale, run with no other handler between its steps.
unfoldable pub watch_session : Login → String → String → AgentMap → AgentMap
watch_session login uid path m = elim (login.session_active path) [
  | none ↦ m
  | some active ↦ if active then set_active_uid uid m else m
]

-- The end of `handleSessionNew`: a session that is new is watched.
unfoldable pub watch_new : Login → String → String → AgentMap → Option AgentMap
unfolding watch_session
watch_new login uid path m = elim (add_session uid (record { path = path }) m) [
  | none ↦ none
  | some (m', newly_added) ↦ some (if newly_added then watch_session login uid path m' else m')
]

unfoldable pub handle_session_new : Login → String → AgentMap → Option AgentMap
unfolding watch_new
handle_session_new login path m =
    if login.new_session path
    then elim (login.session_type path) [
      | none ↦ some m
      | some kind ↦ if str_eq kind "tty" then some m else elim (login.session_user path) [
        | none ↦ some m
        | some uid ↦ watch_new login uid path m
      ]
    ]
    else some m
