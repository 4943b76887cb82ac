-- ===== src/Agents.antt =====
-- The agents that sessions register, by user (src/lastore-daemon/agent.go).
pub mod Valid
pub mod Handlers
pub mod Served
pub mod Promised
pub mod Performed
pub mod Events
pub mod Record
pub mod Recovered
pub mod Restart
pub mod Lost
pub mod Examples
use lastore_daemon.Base.{
  ℕ, Bool, true, false, List, [], ◌∷◌, Option, none, some, String, str_eq, if◌then◌else◌, not, ltb,
  length,
}
use lastore_daemon.Base.Assoc.{Assoc, lookup, insert, erase, keep_values, map_values, has_key}

-- A `lastoreAgent.Agent` and a `login1.Session`: the bus name and the object path of each.
pub record Agent : Type 0 where
  pub service_name : String
  pub path : String

pub record Session : Type 0 where
  pub path : String

-- `sessionAgentMapItem`; a map that is nil is none.
pub record Item : Type 0 where
  pub sessions : Option (Assoc Session)
  pub agents : Option (Assoc Agent)
  pub lang : String

-- `userAgentMap`; the lock is held through each operation.
pub record AgentMap : Type 0 where
  pub items : Assoc Item
  pub active_uid : String

abbrev pub new_user_agent_map : AgentMap
new_user_agent_map = record { items = []; active_uid = "" }

-- A nil map reads as the empty one.
abbrev pub or_empty {ℓ} : {V : Type ℓ} → Option (Assoc V) → Assoc V
or_empty none = []
or_empty (some m) = m

abbrev pub new_item : Item
new_item = record { sessions = some []; agents = some []; lang = "" }

abbrev pub with_item : String → Item → AgentMap → AgentMap
with_item uid item m = record m { items = insert uid item m.items }

unfoldable pub add_agent : String → Agent → AgentMap → AgentMap
add_agent uid agent m = elim (lookup uid m.items) [
  | some item ↦
      if ltb 10 (length (or_empty item.agents))
      then with_item uid (record item { agents = some (or_empty item.agents) }) m
      else with_item uid
          (record item { agents = some (insert agent.path agent (or_empty item.agents)) }) m
  | none ↦
      with_item uid
        (record { sessions = none; agents = some ((agent.path, agent) ∷ []); lang = "" }) m
]

-- The error's text, none where there is no error.
unfoldable pub remove_agent : String → String → AgentMap → AgentMap × Option String
remove_agent uid path m = elim (lookup uid m.items) [
  | none ↦ (m, some "invalid uid")
  | some item ↦ elim (lookup path (or_empty item.agents)) [
    | none ↦ (m, some "invalid agent path")
    | some agent ↦
        (with_item uid (record item { agents = some (erase path (or_empty item.agents)) }) m, none)
  ]
]

abbrev pub set_active_uid : String → AgentMap → AgentMap
set_active_uid uid m = record m { active_uid = uid }

abbrev pub lose_name : String → Item → Item
lose_name name item = record item {
  agents = elim item.agents [
    | none ↦ none
    | some agents ↦ some (keep_values (λ a. not (str_eq a.service_name name)) agents)
  ];
}

unfoldable pub handle_name_lost : String → AgentMap → AgentMap
handle_name_lost name m = record m { items = map_values (lose_name name) m.items }

unfoldable pub add_user : String → AgentMap → AgentMap
add_user uid m = elim (lookup uid m.items) [ none ↦ with_item uid new_item m | some item ↦ m ]

-- The sessions' signal handlers go with them.
unfoldable pub remove_user : String → AgentMap → AgentMap
remove_user uid m = record m { items = erase uid m.items }

unfoldable pub has_user : String → AgentMap → Bool
has_user uid m = elim (lookup uid m.items) [ none ↦ false | some item ↦ true ]

-- `addSession`, from the item on; none is the panic of a write to a nil map.
unfoldable pub put_session : String → Session → Item → AgentMap → Option (AgentMap × Bool)
put_session uid session item m = elim (lookup session.path (or_empty item.sessions)) [
  | some old ↦ some (m, false)
  | none ↦ elim item.sessions [
    | none ↦ none
    | some sessions ↦ some (
      with_item uid (record item { sessions = some (insert session.path session sessions) }) m,
      true,
    )
  ]
]

unfoldable pub add_session : String → Session → AgentMap → Option (AgentMap × Bool)
unfolding put_session
add_session uid session m = elim (lookup uid m.items) [
  | some item ↦ put_session uid session item m
  | none ↦ put_session uid session new_item (with_item uid new_item m)
]

abbrev pub drop_session : String → Item → Item
drop_session path item = record item {
  sessions = elim item.sessions [ none ↦ none | some sessions ↦ some (erase path sessions) ];
}

unfoldable pub remove_session : String → AgentMap → AgentMap
remove_session path m = record m { items = map_values (drop_session path) m.items }

unfoldable pub add_lang : String → String → AgentMap → AgentMap
add_lang uid lang m = elim (lookup uid m.items) [
  | some item ↦ with_item uid (record item { lang = lang }) m
  | none ↦ with_item uid (record { sessions = none; agents = none; lang = lang }) m
]

unfoldable pub get_active_lastore_agent_lang : AgentMap → String
get_active_lastore_agent_lang m =
    if str_eq m.active_uid ""
    then ""
    else elim (lookup m.active_uid m.items) [ none ↦ "" | some item ↦ item.lang ]

unfoldable pub get_active_agent : String → AgentMap → Option Agent
get_active_agent path m =
    if str_eq m.active_uid "" then none else elim (lookup m.active_uid m.items) [
      | none ↦ none
      | some item ↦ lookup path (or_empty item.agents)
    ]
