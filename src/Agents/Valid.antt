-- ===== src/Agents/Valid.antt =====
-- What holds of the agents' map after each operation.
use lastore_daemon.Base.{
  Bool, true, false, none, some, String, str_eq, if◌then◌else◌, not, ltb, leb, length, ◌&&◌, ◌≡◌,
  refl, arith, Option-cases, Bool-cases, inl, inr,
}
use lastore_daemon.Base.Assoc.{
  Assoc, lookup, insert, erase, map_values, distinct, all_values, insert-distinct, erase-distinct,
  keep_values-distinct, map_values-distinct, all_values-insert, all_values-erase, all_values-lookup,
  all_values-map_values, length-insert, length-erase, length-keep_values,
}
use lastore_daemon.Agents.{
  Agent, Session, Item, AgentMap, or_empty, new_user_agent_map, new_item, with_item, add_agent,
  remove_agent, lose_name, handle_name_lost, add_user, remove_user, drop_session, remove_session,
  add_lang,
}

-- A path names one agent and one session of a user, there are at most eleven agents, and the map
-- of sessions is not nil.
unfoldable pub is_valid_item : Item → Bool
is_valid_item item =
    distinct (or_empty item.agents)
    && leb (length (or_empty item.agents)) 11
    && (elim item.sessions [ none ↦ false | some sessions ↦ distinct sessions ])

-- Each user has one item, and every item passes a test.
abbrev pub IsValid : AgentMap → Type 0
IsValid m = (distinct m.items ≡ true) × (all_values is_valid_item m.items ≡ true)

pub with_item-IsValid :
    (uid : String) (item : Item) (m : AgentMap)
    → is_valid_item item ≡ true
    → IsValid m
    → IsValid (with_item uid item m)
with_item-IsValid uid item m e (d, a) =
    (insert-distinct uid item m.items d, all_values-insert is_valid_item uid item m.items e a)

map_values-IsValid :
    (f : Item → Item) (m : AgentMap)
    → ((item : Item) → is_valid_item item ≡ true → is_valid_item (f item) ≡ true)
    → IsValid m
    → IsValid (record m { items = map_values f m.items })
map_values-IsValid f m g (d, a) =
    (map_values-distinct f m.items d, all_values-map_values is_valid_item f m.items g a)

pub found_valid :
    (uid : String) (m : AgentMap) (item : Item)
    → IsValid m
    → lookup uid m.items ≡ some item
    → is_valid_item item ≡ true
found_valid uid m item (d, a) e = all_values-lookup is_valid_item uid m.items item a e

pub new_item_valid : is_valid_item new_item ≡ true
unfolding is_valid_item distinct
new_item_valid = refl

module _ (item : Item) (h : is_valid_item item ≡ true) where
  insert_valid :
      (path : String) (a : Agent)
      → ltb 10 (length (or_empty item.agents)) ≡ false
      → is_valid_item (record item { agents = some (insert path a (or_empty item.agents)) }) ≡ true
  unfolding is_valid_item
  insert_valid path a e = ground (
    arith,
    insert-distinct path a (or_empty item.agents),
    length-insert path a (or_empty item.agents),
  )

  allocate_valid : is_valid_item (record item { agents = some (or_empty item.agents) }) ≡ true
  unfolding is_valid_item
  allocate_valid = h

  erase_valid :
      (path : String)
      → is_valid_item (record item { agents = some (erase path (or_empty item.agents)) }) ≡ true
  unfolding is_valid_item
  erase_valid path =
      ground (
        arith,
        erase-distinct path (or_empty item.agents),
        length-erase path (or_empty item.agents),
      )

  lang_valid : (lang : String) → is_valid_item (record item { lang = lang }) ≡ true
  unfolding is_valid_item
  lang_valid lang = h

  pub session_valid :
      (sessions : Assoc Session) (s : Session)
      → item.sessions ≡ some sessions
      → is_valid_item (record item { sessions = some (insert s.path s sessions) }) ≡ true
  unfolding is_valid_item
  session_valid sessions s e = ground (arith, insert-distinct s.path s sessions)

pub nil_invalid : (item : Item) → item.sessions ≡ none → ¬ (is_valid_item item ≡ true)
unfolding is_valid_item
nil_invalid item e h = ground arith

lose_name-valid :
    (name : String) (item : Item)
    → is_valid_item item ≡ true
    → is_valid_item (lose_name name item) ≡ true
unfolding is_valid_item
lose_name-valid name item h = elim (Option-cases item.agents) [
  | inl e ↦ ground arith
  | inr (agents, e) ↦ ground (
    arith,
    keep_values-distinct (λ a. not (str_eq a.service_name name)) agents,
    length-keep_values (λ a. not (str_eq a.service_name name)) agents,
  )
]

drop_session-valid :
    (path : String) (item : Item)
    → is_valid_item item ≡ true
    → is_valid_item (drop_session path item) ≡ true
unfolding is_valid_item
drop_session-valid path item h = elim (Option-cases item.sessions) [
  | inl e ↦ ground arith
  | inr (sessions, e) ↦ ground (arith, erase-distinct path sessions)
]

pub new_user_agent_map-IsValid : IsValid new_user_agent_map
unfolding distinct all_values
new_user_agent_map-IsValid = (refl, refl)

pub add_user-IsValid : (uid : String) (m : AgentMap) → IsValid m → IsValid (add_user uid m)
unfolding add_user
add_user-IsValid uid m v = elim (Option-cases (lookup uid m.items)) [
  | inl e ↦ rw (e, add_user) (with_item-IsValid uid new_item m new_item_valid v)
  | inr (item, e) ↦ rw (e, add_user) v
]

pub remove_user-IsValid : (uid : String) (m : AgentMap) → IsValid m → IsValid (remove_user uid m)
unfolding remove_user
remove_user-IsValid uid m (d, a) =
    (erase-distinct uid m.items d, all_values-erase is_valid_item uid m.items a)

pub add_agent-IsValid :
    (uid : String) (agent : Agent) (m : AgentMap) (item : Item)
    → lookup uid m.items ≡ some item
    → IsValid m
    → IsValid (add_agent uid agent m)
unfolding add_agent
add_agent-IsValid uid agent m item e v =
    let h = found_valid uid m item v e in
    elim (Bool-cases (ltb 10 (length (or_empty item.agents)))) [
      | inl full ↦
          rw (e, add_agent, full, if◌then◌else◌)
            (with_item-IsValid uid _ m (allocate_valid item h) v)
      | inr room ↦
          rw (e, add_agent, room, if◌then◌else◌)
            (with_item-IsValid uid _ m (insert_valid item h agent.path agent room) v)
    ]

pub remove_agent-IsValid :
    (uid path : String) (m : AgentMap) → IsValid m → IsValid (remove_agent uid path m).0
unfolding remove_agent
remove_agent-IsValid uid path m v = elim (Option-cases (lookup uid m.items)) [
  | inl e ↦ rw (e, remove_agent) v
  | inr (item, e) ↦ elim (Option-cases (lookup path (or_empty item.agents))) [
    | inl e' ↦ rw (e, remove_agent, e') v
    | inr (agent, e') ↦
        rw (e, remove_agent, e')
          (with_item-IsValid uid _ m (erase_valid item (found_valid uid m item v e) path) v)
  ]
]

pub handle_name_lost-IsValid :
    (name : String) (m : AgentMap) → IsValid m → IsValid (handle_name_lost name m)
unfolding handle_name_lost
handle_name_lost-IsValid name m v = map_values-IsValid (lose_name name) m (lose_name-valid name) v

pub remove_session-IsValid :
    (path : String) (m : AgentMap) → IsValid m → IsValid (remove_session path m)
unfolding remove_session
remove_session-IsValid path m v =
    map_values-IsValid (drop_session path) m (drop_session-valid path) v

pub add_lang-IsValid :
    (uid lang : String) (m : AgentMap) (item : Item)
    → lookup uid m.items ≡ some item
    → IsValid m
    → IsValid (add_lang uid lang m)
unfolding add_lang
add_lang-IsValid uid lang m item e v =
    rw (e, add_lang)
      (with_item-IsValid uid _ m (lang_valid item (found_valid uid m item v e) lang) v)
