-- ===== src/Agents/Record.antt =====
-- The record of the agents that is kept while the daemon is away (src/lastore-daemon/agent.go).
use lastore_daemon.Base.{
  Bool, List, [], ◌∷◌, Option, none, some, String, str_eq, if◌then◌else◌, any,
}
use lastore_daemon.Base.Assoc.{Assoc, lookup, insert}
use lastore_daemon.Agents.{Agent, Item, AgentMap, or_empty, new_item, with_item}
use lastore_daemon.Agents.Handlers.{Login, handle_session_new}

-- `sessionAgentMapInfo` and `userAgentInfoMap`, as the JSON file keeps them.
pub record ItemInfo : Type 0 where
  pub sessions : List String
  pub agents : Assoc String
  pub lang : String

pub record Info : Type 0 where
  pub active_uid : String
  pub uid_infos : Assoc ItemInfo

unfoldable pub keys {ℓ} : {V : Type ℓ} → Assoc V → List String
keys [] = []
keys ((k, v) ∷ m) = k ∷ keys m

unfoldable pub senders : Assoc Agent → Assoc String
senders [] = []
senders ((path, agent) ∷ m) = (path, agent.service_name) ∷ senders m

abbrev pub item_info : Item → ItemInfo
item_info item = record {
  sessions = keys (or_empty item.sessions);
  agents = senders (or_empty item.agents);
  lang = item.lang;
}

unfoldable pub item_infos : Assoc Item → Assoc ItemInfo
item_infos [] = []
item_infos ((uid, item) ∷ m) = (uid, item_info item) ∷ item_infos m

abbrev pub get_agents_info : AgentMap → Info
get_agents_info m = record { active_uid = m.active_uid; uid_infos = item_infos m.items }

-- What the outside answers: the file's record and the login manager's sessions (user, path), none
-- for an error; whether a bus name has an owner, false for an error; and the object of an agent.
pub record Restoring : Type 0 where
  pub record_file : Option Info
  pub sessions : Option (List (String × String))
  pub has_owner : String → Bool
  pub new_agent : String → String → Option Agent
  pub login : Login

-- The paths of the active user's sessions.
unfoldable pub active_paths : String → List (String × String) → List String
active_paths uid [] = []
active_paths uid ((user, path) ∷ l) =
    if str_eq user uid then path ∷ active_paths uid l else active_paths uid l

-- `item` is the one in the map, which the caller's pointer shares.
abbrev pub change_item : String → (Item → Item) → AgentMap → AgentMap
change_item uid f m = elim (lookup uid m.items) [ none ↦ m | some item ↦ with_item uid (f item) m ]

unfoldable pub recover_sessions : Login → List String → List String → AgentMap → Option AgentMap
recover_sessions login valid [] m = some m
recover_sessions login valid (path ∷ paths) m =
    let next = if any (str_eq path) valid then handle_session_new login path m else some m in
    elim next [ none ↦ none | some m' ↦ recover_sessions login valid paths m' ]

-- A map has no order; its entries are visited from the last one on.
unfoldable pub recover_agents : Restoring → Assoc String → Assoc Agent
recover_agents r [] = []
recover_agents r ((path, sender) ∷ l) =
    if r.has_owner sender
    then elim (r.new_agent sender path) [
      | none ↦ recover_agents r l
      | some agent ↦ insert path agent (recover_agents r l)
    ]
    else recover_agents r l

abbrev pub fill : Restoring → ItemInfo → Item → Item
fill r info item = record item { agents = some (recover_agents r info.agents); lang = info.lang }

-- The items of the users, the last one first.
unfoldable pub recover_items : Restoring → List String → Assoc ItemInfo → AgentMap → Option AgentMap
unfolding recover_sessions recover_agents
recover_items r valid [] m = some m
recover_items r valid ((uid, info) ∷ l) m = elim (recover_items r valid l m) [
  | none ↦ none
  | some m1 ↦ elim (recover_sessions r.login valid info.sessions (with_item uid new_item m1)) [
    | none ↦ none
    | some m2 ↦ some (change_item uid (fill r info) m2)
  ]
]

-- `recoverLastoreAgents`, less the locale; none is a panic.
unfoldable pub recover_lastore_agents : Restoring → AgentMap → Option AgentMap
unfolding active_paths recover_items
recover_lastore_agents r m = elim r.record_file [
  | none ↦ some m
  | some info ↦ elim r.sessions [
    | none ↦ some m
    | some sessions ↦
        recover_items r (active_paths info.active_uid sessions) info.uid_infos
          (record { items = []; active_uid = info.active_uid })
  ]
]
