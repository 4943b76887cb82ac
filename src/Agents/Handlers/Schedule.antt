-- ===== src/Agents/Handlers/Schedule.antt =====
-- The daemon's methods and signal handlers that change the agents' map
-- (src/lastore-daemon/manager_ifc.go, manager.go), each in a goroutine of its own. The map is
-- locked in each of its operations and in no handler, so that the operations of handlers that run
-- at the same time come in any order.
use lastore_daemon.Base.{
  ℕ, Bool, ◌&&◌, List, [], ◌∷◌, ◌++◌, Option, none, some, String, str_eq, if◌then◌else◌, get_elem?,
  set,
}
use lastore_daemon.Agents.{
  Agent, AgentMap, add_agent, remove_agent, add_user, add_session, remove_session, remove_user,
  add_lang, set_active_uid, handle_name_lost,
}
use lastore_daemon.Agents.Handlers.{Login, get_lang}

-- A call of an operation of the map.
pub data Call : Type 0 where
  adds_user : String → Call
  adds_lang : String → String → Call
  adds_session : Login → String → String → Call
  sets_active : String → Call
  adds_agent : String → Agent → Call
  removes_agent : String → String → Call
  removes_session : String → Call
  removes_user : String → Call
  loses_name : String → Call

-- The calls of `watchSession`; the handler that it connects is `active_changed`.
unfoldable pub watch_calls : Login → String → String → List Call
watch_calls login uid path = elim (login.session_active path) [
  | none ↦ []
  | some active ↦ if active then sets_active uid ∷ [] else []
]

unfoldable pub active_changed : String → Bool → Bool → List Call
active_changed uid has_value active = if has_value && active then sets_active uid ∷ [] else []

-- A call, and the calls that it adds to those that follow it in its goroutine: a session that is
-- new is watched. None is the panic of a write to a nil map.
unfoldable pub perform : Call → AgentMap → Option (AgentMap × List Call)
unfolding watch_calls
perform (adds_user uid) m = some (add_user uid m, [])
perform (adds_lang uid lang) m = some (add_lang uid lang m, [])
perform (adds_session login uid path) m = elim (add_session uid (record { path = path }) m) [
  | none ↦ none
  | some (m', newly_added) ↦ some (m', if newly_added then watch_calls login uid path else [])
]
perform (sets_active uid) m = some (set_active_uid uid m, [])
perform (adds_agent uid agent) m = some (add_agent uid agent m, [])
perform (removes_agent uid path) m = some ((remove_agent uid path m).0, [])
perform (removes_session path) m = some (remove_session path m, [])
perform (removes_user uid) m = some (remove_user uid m, [])
perform (loses_name name) m = some (handle_name_lost name m, [])

-- What `RegisterAgent` asks: the caller's user, the list of sessions (user, path), whether the
-- caller's process is known, its environment, and the agent's object.
pub record Registering : Type 0 where
  pub uid : Option String
  pub sessions : Option (List (String × String))
  pub has_pid : Bool
  pub environ : Option (String → String)
  pub agent : Option Agent
  pub login : Login

unfoldable pub update_lang : Option (String → String) → String → List Call
unfolding get_lang
update_lang none uid = []
update_lang (some env) uid = adds_lang uid (get_lang env) ∷ []

-- The loop of `RegisterAgent` over the sessions of the login manager.
unfoldable pub add_sessions : Login → String → List (String × String) → List Call
add_sessions login uid [] = []
add_sessions login uid ((user, path) ∷ details) =
    let rest = add_sessions login uid details in
    if str_eq user uid && login.new_session path then adds_session login uid path ∷ rest else rest

unfoldable pub add_object : Option Agent → String → List Call
add_object none uid = []
add_object (some agent) uid = adds_agent uid agent ∷ []

-- `RegisterAgent` once its caller's user is known.
unfoldable pub register_user : Registering → String → List Call
unfolding update_lang add_sessions add_object
register_user r uid = elim r.sessions [
  | none ↦ adds_user uid ∷ []
  | some details ↦
      adds_user uid
      ∷ (if r.has_pid
          then update_lang r.environ uid
            ++ (add_sessions r.login uid details ++ add_object r.agent uid)
          else [])
]

unfoldable pub register_agent : Registering → List Call
unfolding register_user
register_agent r = elim r.uid [ none ↦ [] | some uid ↦ register_user r uid ]

unfoldable pub unregister_agent : Option String → String → List Call
unregister_agent none path = []
unregister_agent (some uid) path = removes_agent uid path ∷ []

-- The calls of `handleSessionNew`.
unfoldable pub session_calls : Login → String → List Call
session_calls login path =
    if login.new_session path
    then elim (login.session_type path) [
      | none ↦ []
      | some kind ↦ if str_eq kind "tty" then [] else elim (login.session_user path) [
        | none ↦ []
        | some uid ↦ adds_session login uid path ∷ []
      ]
    ]
    else []

-- The calls and signals that reach the daemon, each with what the outside answers.
pub data Event : Type 0 where
  registered : Registering → Event
  unregistered : Option String → String → Event
  session_new : Login → String → Event
  session_removed : String → Event
  user_removed : String → Event
  name_lost : String → Event
  activated : String → Bool → Bool → Event

-- The calls of the map's operations in the handler of an event.
unfoldable pub handle : Event → List Call
unfolding active_changed unregister_agent register_agent session_calls
handle (Event.registered r) = register_agent r
handle (Event.unregistered uid path) = unregister_agent uid path
handle (Event.session_new login path) = session_calls login path
handle (Event.session_removed path) = removes_session path ∷ []
handle (Event.user_removed uid) = removes_user uid ∷ []
handle (Event.name_lost name) = loses_name name ∷ []
handle (Event.activated uid has_value active) = active_changed uid has_value active

-- The map, and the calls that each goroutine has yet to make, the newest goroutine first.
pub record Daemon : Type 0 where
  pub agents : AgentMap
  pub tasks : List (List Call)

-- An event arrives, or a goroutine makes its next call.
pub data Move : Type 0 where
  arrives : Event → Move
  runs : ℕ → Move

-- The next call of a goroutine, and those after it.
abbrev pub next_call : List (List Call) → ℕ → Option (Call × List Call)
next_call tasks i = elim (get_elem? tasks i) [
  | none ↦ none
  | some task ↦ elim task [ [] ↦ none | call ∷ rest ↦ some (call, rest) ]
]

abbrev pub put_task : ℕ → List Call → Daemon → Option (AgentMap × List Call) → Option Daemon
put_task i rest d none = none
put_task i rest d (some (m, more)) =
    some (record { agents = m; tasks = set d.tasks i (more ++ rest) })

unfoldable pub move : Move → Daemon → Option Daemon
unfolding handle perform
move (arrives e) d = some (record d { tasks = handle e ∷ d.tasks })
move (runs i) d = elim (next_call d.tasks i) [
  | none ↦ some d
  | some (call, rest) ↦ put_task i rest d (perform call d.agents)
]

unfoldable pub move_all : List Move → Daemon → Option Daemon
unfolding move
move_all [] d = some d
move_all (x ∷ moves) d = elim (move x d) [ none ↦ none | some d' ↦ move_all moves d' ]
