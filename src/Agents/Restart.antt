-- ===== src/Agents/Restart.antt =====
-- What a daemon that starts again knows of the agents that it knew when it quit
-- (src/lastore-daemon/agent.go).
use lastore_daemon.Base.{
  true, List, [], ◌∷◌, Option, none, some, String, str_eq, str_eq_iff, if◌then◌else◌, ◌≡◌, refl,
  arith, Option-cases, Bool-cases, inl, inr, ◌∙◌, ap, sym, any, length, ◌≤◌,
}
use lastore_daemon.Base.Assoc.{
  Assoc, lookup, distinct, all_values, lookup-insert, insert-distinct, length-insert, filter_option,
  lookup-none,
}
use lastore_daemon.Agents.{Agent, Item, AgentMap, or_empty, new_item, with_item, has_user}
use lastore_daemon.Agents.Handlers.{Login, handle_session_new}
use lastore_daemon.Agents.Valid.{
  IsValid, is_valid_item, with_item-IsValid, new_item_valid, found_valid,
}
use lastore_daemon.Agents.Served.{Extends, Extends-trans, handle_session_new-Runs, found, created}
use lastore_daemon.Agents.Record.{
  Info, senders, item_info, item_infos, get_agents_info, Restoring, active_paths, change_item,
  recover_sessions, recover_agents, fill, recover_items, recover_lastore_agents,
}
use lastore_daemon.Agents.Recovered.{
  view, sender_of, lang_of, SameView, Stays, view-with_item, handle_session_new-Stays,
}

recover_agents-distinct : (r : Restoring) (l : Assoc String) → distinct (recover_agents r l) ≡ true
unfolding recover_agents distinct
recover_agents-distinct r [] = refl
recover_agents-distinct r ((path, sender) ∷ l) = elim (Bool-cases (r.has_owner sender)) [
  | inr n ↦ rw (n, recover_agents, if◌then◌else◌) (recover_agents-distinct r l)
  | inl n ↦ elim (Option-cases (r.new_agent sender path)) [
    | inl e ↦ rw (n, recover_agents, if◌then◌else◌, e) (recover_agents-distinct r l)
    | inr (agent, e) ↦
        rw (n, recover_agents, if◌then◌else◌, e)
          (insert-distinct path agent (recover_agents r l) (recover_agents-distinct r l))
  ]
]

length-recover_agents :
    (r : Restoring) (agents : Assoc Agent)
    → length (recover_agents r (senders agents)) ≤ length agents
unfolding recover_agents senders
length-recover_agents r [] = omega arith
length-recover_agents r ((path, agent) ∷ l) =
    elim (Option-cases (r.new_agent agent.service_name path)) [
      | inl e ↦ ground (arith, length-recover_agents r l)
      | inr (made, e) ↦
          ground (
            arith,
            length-recover_agents r l,
            length-insert path made (recover_agents r (senders l)),
          )
    ]

-- The bus name of the agent at a path.
abbrev pub name_at : String → Assoc Agent → Option String
name_at path agents = elim (lookup path agents) [
  | none ↦ none
  | some agent ↦ some agent.service_name
]

-- The objects of agents have the bus name that they are made with.
abbrev pub IsNamed : Restoring → Type 0
IsNamed r =
    (sender path : String)
    → r.new_agent sender path ≡ some (record { service_name = sender; path = path })

name_at-recover_agents :
    (r : Restoring) (named : IsNamed r) (path : String) (agents : Assoc Agent)
    → distinct agents ≡ true
    → name_at path (recover_agents r (senders agents))
      ≡ filter_option r.has_owner (name_at path agents)
unfolding recover_agents senders lookup distinct
name_at-recover_agents r named path [] d = refl
name_at-recover_agents r named path ((key, agent) ∷ l) d =
    let made : Agent = record { service_name = agent.service_name; path = key } in
    ground (
      arith,
      named agent.service_name key,
      name_at-recover_agents r named path l,
      str_eq_iff key path,
      lookup-none path l,
      lookup-insert key path made (recover_agents r (senders l)),
    )

-- The map during a recovery: valid, and the active user is the recorded one.
abbrev Found : (String → Assoc Agent × String) → String → Option AgentMap → Type 0
Found v a o =
    (m : AgentMap) × (o ≡ some m) × IsValid m × (m.active_uid ≡ a) × ((u : String) → view u m ≡ v u)

-- The sessions that are still there are of the active user.
abbrev pub IsConsistent : Login → String → List String → Type 0
IsConsistent login a valid =
    (path uid : String)
    → any (str_eq path) valid ≡ true
    → login.session_user path ≡ some uid
    → uid ≡ a

abbrev one_session : Login → List String → String → AgentMap → Option AgentMap
one_session login valid path m =
    if any (str_eq path) valid then handle_session_new login path m else some m

module _ (login : Login) (a : String) (valid : List String) (g : IsConsistent login a valid) where
  one_session-Runs :
      (path : String) (m : AgentMap)
      → IsValid m
      → m.active_uid ≡ a
      → (m' : AgentMap) × (one_session login valid path m ≡ some m') × Extends m m' × Stays a m m'
  one_session-Runs path m v e = elim (Bool-cases (any (str_eq path) valid)) [
    | inr n ↦ (m, rw (n, if◌then◌else◌) refl, (v, λ u h. h), ((λ u. refl), e))
    | inl n ↦
        let (m', p, x) = handle_session_new-Runs login path m v in
        (
          m',
          rw (n, if◌then◌else◌) p,
          x,
          handle_session_new-Stays login a path m m' (λ uid. g path uid n) e p,
        )
  ]

  recover_sessions-Runs :
      (paths : List String) (m : AgentMap)
      → IsValid m
      → m.active_uid ≡ a
      → (m' : AgentMap) × (recover_sessions login valid paths m ≡ some m')
        × Extends m m'
        × Stays a m m'
  unfolding recover_sessions
  recover_sessions-Runs [] m v e = (m, refl, (v, λ u h. h), ((λ u. refl), e))
  recover_sessions-Runs (path ∷ paths) m v e =
      let (m1, p, x1, (f1, e1)) = one_session-Runs path m v e in
      let (m2, p', x2, (f2, e2)) = recover_sessions-Runs paths m1 x1.0 e1 in
      (
        m2,
        ap (λ o. elim o [ none ↦ none | some m' ↦ recover_sessions login valid paths m' ]) p ∙ p',
        Extends-trans m m1 m2 x1 x2,
        ((λ u. f2 u ∙ f1 u), e2),
      )

-- What is restored of one user.
abbrev restored : Restoring → Assoc Agent × String → Assoc Agent × String
restored r (agents, lang) = (recover_agents r (senders agents), lang)

fill_valid :
    (r : Restoring) (item made : Item)
    → is_valid_item item ≡ true
    → is_valid_item made ≡ true
    → is_valid_item (fill r (item_info item) made) ≡ true
unfolding is_valid_item
fill_valid r item made h h' = ground (
  arith,
  recover_agents-distinct r (senders (or_empty item.agents)),
  length-recover_agents r (or_empty item.agents),
)

abbrev items_map : Assoc Item → String → AgentMap
items_map items a = record { items = items; active_uid = a }

view_cons :
    (u uid a : String) (item : Item) (l : Assoc Item)
    → view u (items_map ((uid, item) ∷ l) a)
      ≡ (if str_eq uid u then (or_empty item.agents, item.lang) else view u (items_map l a))
unfolding view lookup
view_cons u uid a item l = ground arith

filled_view :
    (r : Restoring) (u uid a : String) (item made : Item) (l : Assoc Item) (m1 m2 : AgentMap)
    → SameView (with_item uid new_item m1) m2
    → view u m1 ≡ restored r (view u (items_map l a))
    → view u (with_item uid (fill r (item_info item) made) m2)
      ≡ restored r (view u (items_map ((uid, item) ∷ l) a))
filled_view r u uid a item made l m1 m2 same g =
    let kept : view u m2 ≡ (if str_eq uid u then ([], "") else view u m1) =
      same u ∙ view-with_item uid u new_item m1 in
    let now = view-with_item uid u (fill r (item_info item) made) m2 in
    let before = view_cons u uid a item l in
    elim (Bool-cases (str_eq uid u)) [
      | inl e ↦
          now
          ∙ ap (λ b. if b then restored r (or_empty item.agents, item.lang) else view u m2) e
          ∙ sym (
              ap (restored r) (
                before
                ∙ ap (λ b. if b then (or_empty item.agents, item.lang) else view u (items_map l a))
                    e))
      | inr e ↦
          now
          ∙ ap (λ b. if b then restored r (or_empty item.agents, item.lang) else view u m2) e
          ∙ kept
          ∙ ap (λ b. if b then ([], "") else view u m1) e
          ∙ g
          ∙ sym (
              ap (restored r) (
                before
                ∙ ap (λ b. if b then (or_empty item.agents, item.lang) else view u (items_map l a))
                    e))
    ]

new_item_known : (uid : String) (m : AgentMap) → has_user uid (with_item uid new_item m) ≡ true
unfolding has_user
new_item_known uid m = ground (arith, created uid m)

change_item-Found :
    (r : Restoring) (uid a : String) (item : Item) (l : Assoc Item) (m1 m2 : AgentMap)
    → is_valid_item item ≡ true
    → Extends (with_item uid new_item m1) m2
    → Stays a (with_item uid new_item m1) m2
    → ((u : String) → view u m1 ≡ restored r (view u (items_map l a)))
    → Found
        (λ u. restored r (view u (items_map ((uid, item) ∷ l) a)))
        a
        (some (change_item uid (fill r (item_info item)) m2))
change_item-Found r uid a item l m1 m2 h (v2, f) (same, e) g =
    let (made, q) = found uid m2 (f uid (new_item_known uid m1)) in
    let made' = fill r (item_info item) made in
    (
      with_item uid made' m2,
      rw (q, change_item) refl,
      with_item-IsValid uid made' m2 (fill_valid r item made h (found_valid uid m2 made v2 q)) v2,
      e,
      λ u. filled_view r u uid a item made l m1 m2 same (g u),
    )

recover_items-Found :
    (r : Restoring) (a : String) (valid : List String)
    → IsConsistent r.login a valid
    → (items : Assoc Item) → all_values is_valid_item items ≡ true
    → Found
        (λ u. restored r (view u (items_map items a)))
        a
        (recover_items r valid (item_infos items) (items_map [] a))
unfolding recover_items item_infos all_values distinct view lookup recover_agents senders
recover_items-Found r a valid g [] h = (items_map [] a, refl, (refl, refl), refl, λ u. refl)
recover_items-Found r a valid g ((uid, item) ∷ l) h =
    let (m1, p1, v1, e1, f1) = recover_items-Found r a valid g l (ground arith) in
    let (m2, p2, x2, s2) =
      recover_sessions-Runs r.login a valid g (item_info item).sessions (with_item uid new_item m1)
        (with_item-IsValid uid new_item m1 new_item_valid v1) e1 in
    let (m3, p3, v3, e3, f3) = change_item-Found r uid a item l m1 m2 (ground arith) x2 s2 f1 in
    (m3, rw (p1, p2) p3, v3, e3, f3)

pub view-distinct : (u : String) (m : AgentMap) → IsValid m → distinct (view u m).0 ≡ true
unfolding view is_valid_item distinct
view-distinct u m v = elim (Option-cases (lookup u m.items)) [
  | inl e ↦ rw (e, view) refl
  | inr (item, e) ↦ ground (arith, found_valid u m item v e)
]

record_read :
    (r : Restoring) (start : AgentMap) (info : Info) (sessions : List (String × String))
    → r.record_file ≡ some info
    → r.sessions ≡ some sessions
    → recover_lastore_agents r start
      ≡ recover_items r
          (active_paths info.active_uid sessions)
          info.uid_infos
          (items_map [] info.active_uid)
unfolding recover_lastore_agents
record_read r start info sessions file listed = ground arith

-- When the daemon starts with the record that it saved of a valid map, and the login manager
-- answers, then it does not panic and the map that it restores is valid, with the active user that
-- was saved; every user has the language of before, and at each path the agent of before with its
-- bus name, less the agents whose bus name has no owner any more. The agents' objects have the bus
-- name they are made with, and the sessions that are listed for the active user are the active
-- user's. What the map held at the start does not matter.
pub recover_lastore_agents-get_agents_info :
    (r : Restoring) (m start : AgentMap) (sessions : List (String × String))
    → IsValid m
    → r.record_file ≡ some (get_agents_info m)
    → r.sessions ≡ some sessions
    → IsNamed r
    → IsConsistent r.login m.active_uid (active_paths m.active_uid sessions)
    → (m' : AgentMap) × (recover_lastore_agents r start ≡ some m')
      × IsValid m'
      × (m'.active_uid ≡ m.active_uid)
      × ((u : String) → lang_of u m' ≡ lang_of u m)
      × ((u path : String) → sender_of u path m' ≡ filter_option r.has_owner (sender_of u path m))
unfolding lang_of sender_of
recover_lastore_agents-get_agents_info r m start sessions v file listed named g =
    let (m', p, v', e, f) =
      recover_items-Found r m.active_uid (active_paths m.active_uid sessions) g m.items v.1 in
    (
      m',
      record_read r start (get_agents_info m) sessions file listed ∙ p,
      v',
      e,
      λ u. ap (λ w. w.1) (f u),
      λ u path.
          ap (λ w. name_at path w.0) (f u)
          ∙ name_at-recover_agents r named path (view u m).0 (view-distinct u m v),
    )
