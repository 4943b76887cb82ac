-- ===== src/Agents/Performed.antt =====
-- What one call of an operation of the agents' map does (src/lastore-daemon/agent.go).
use lastore_daemon.Base.{
  Bool, true, not, ◌||◌, List, [], ◌++◌, some, String, str_eq, str_eq_iff, if◌then◌else◌, ltb,
  length, ◌≡◌, refl, arith, Option-cases, Bool-cases, inl, inr, subst,
}
use lastore_daemon.Base.Assoc.{lookup, lookup-erase, lookup-map_values, lookup-insert}
use lastore_daemon.Agents.{
  Agent, Item, AgentMap, add_agent, remove_agent, handle_name_lost, lose_name, add_user,
  remove_user, has_user, remove_session, drop_session, with_item, new_item, or_empty,
}
use lastore_daemon.Agents.Valid.{
  IsValid, add_user-IsValid, remove_user-IsValid, add_agent-IsValid, remove_agent-IsValid,
  handle_name_lost-IsValid, remove_session-IsValid,
}
use lastore_daemon.Agents.Handlers.{Login}
use lastore_daemon.Agents.Handlers.Schedule.{
  Call, adds_user, adds_lang, adds_session, sets_active, adds_agent, removes_agent, removes_session,
  removes_user, loses_name, watch_calls, perform,
}
use lastore_daemon.Agents.Served.{found, add_user-has_user, add_lang-Extends, add_session-Puts}
use lastore_daemon.Agents.Promised.{is_met, learn, is_safe}

-- A call takes no user's item away, except that of the user that it removes.
abbrev pub spares : Call → String → Bool
spares (removes_user uid) u = not (str_eq uid u)
spares _ u = true

abbrev pub users : AgentMap → String → Bool
users m u = has_user u m

-- Calls that count on nothing and change no user.
abbrev pub IsIdle : List Call → Type 0
IsIdle more = (k : String → Bool) (calls : List Call) → is_safe k (more ++ calls) ≡ is_safe k calls

-- A call that does not panic, leaves a valid map, and makes and keeps the users that it should.
abbrev pub Performs : Call → AgentMap → Type 0
Performs c m =
    (m' : AgentMap) × (more : List Call) × (perform c m ≡ some (m', more))
    × IsValid m'
    × ((u : String) → spares c u ≡ true → learn (users m) c u ≡ true → has_user u m' ≡ true)
    × IsIdle more

nothing_more : IsIdle []
nothing_more k calls = refl

watch_calls-IsIdle : (login : Login) (uid path : String) → IsIdle (watch_calls login uid path)
unfolding watch_calls is_safe
watch_calls-IsIdle login uid path k calls = ground arith

with_item-users :
    (uid u : String) (item : Item) (m : AgentMap)
    → (str_eq uid u || has_user u m) ≡ true
    → has_user u (with_item uid item m) ≡ true
unfolding has_user
with_item-users uid u item m e = ground (arith, lookup-insert uid u item m.items)

either : (a b : Bool) → b ≡ true → (a || b) ≡ true
either a b e = ground arith

add_user-users :
    (uid u : String) (m : AgentMap)
    → (str_eq uid u || has_user u m) ≡ true
    → has_user u (add_user uid m) ≡ true
unfolding add_user
add_user-users uid u m e = elim (Option-cases (lookup uid m.items)) [
  | inl f ↦ rw (f, add_user) (with_item-users uid u new_item m e)
  | inr (item, f) ↦ elim (Bool-cases (str_eq uid u)) [
    | inl g ↦
        subst (λ x. has_user x (add_user uid m) ≡ true) ((str_eq_iff uid u).0 g)
          (add_user-has_user uid m)
    | inr g ↦ rw (f, add_user) (ground (arith, e, g))
  ]
]

add_agent-users :
    (uid u : String) (agent : Agent) (m : AgentMap)
    → has_user u m ≡ true
    → has_user u (add_agent uid agent m) ≡ true
unfolding add_agent
add_agent-users uid u agent m e =
    let has = either (str_eq uid u) (has_user u m) e in
    elim (Option-cases (lookup uid m.items)) [
      | inl f ↦ rw (f, add_agent) (with_item-users uid u _ m has)
      | inr (item, f) ↦ elim (Bool-cases (ltb 10 (length (or_empty item.agents)))) [
        | inl full ↦ rw (f, add_agent, full, if◌then◌else◌) (with_item-users uid u _ m has)
        | inr room ↦ rw (f, add_agent, room, if◌then◌else◌) (with_item-users uid u _ m has)
      ]
    ]

remove_agent-users :
    (uid u path : String) (m : AgentMap)
    → has_user u m ≡ true
    → has_user u (remove_agent uid path m).0 ≡ true
unfolding remove_agent
remove_agent-users uid u path m e = elim (Option-cases (lookup uid m.items)) [
  | inl f ↦ rw (f, remove_agent) e
  | inr (item, f) ↦ elim (Option-cases (lookup path (or_empty item.agents))) [
    | inl g ↦ rw (f, remove_agent, g) e
    | inr (agent, g) ↦
        rw (f, remove_agent, g) (with_item-users uid u _ m (either (str_eq uid u) (has_user u m) e))
  ]
]

name_lost-users :
    (name u : String) (m : AgentMap)
    → has_user u m ≡ true
    → has_user u (handle_name_lost name m) ≡ true
unfolding has_user handle_name_lost
name_lost-users name u m e = ground (arith, lookup-map_values (lose_name name) u m.items)

remove_session-users :
    (path u : String) (m : AgentMap)
    → has_user u m ≡ true
    → has_user u (remove_session path m) ≡ true
unfolding has_user remove_session
remove_session-users path u m e = ground (arith, lookup-map_values (drop_session path) u m.items)

remove_user-users :
    (uid u : String) (m : AgentMap)
    → not (str_eq uid u) ≡ true
    → has_user u m ≡ true
    → has_user u (remove_user uid m) ≡ true
unfolding has_user remove_user
remove_user-users uid u m n e = ground (arith, lookup-erase uid u m.items)

pub perform-Performs :
    (c : Call) (m : AgentMap) → IsValid m → is_met (users m) c ≡ true → Performs c m
unfolding perform has_user
perform-Performs (adds_user uid) m v e = (
  add_user uid m,
  [],
  refl,
  add_user-IsValid uid m v,
  (λ u s. add_user-users uid u m),
  nothing_more,
)
perform-Performs (adds_lang uid lang) m v e =
    let (item, f) = found uid m e in
    let (v', x) = add_lang-Extends uid lang m item f v in
    (_, [], refl, v', (λ u s. x u), nothing_more)
perform-Performs (adds_session login uid path) m v e =
    let (m', b, p, (v', x)) = add_session-Puts uid (record { path = path }) m v in
    elim (Bool-cases b) [
      | inl f ↦ (
        m',
        watch_calls login uid path,
        rw (p, perform, f, if◌then◌else◌) refl,
        v',
        (λ u s. x u),
        watch_calls-IsIdle login uid path,
      )
      | inr f ↦ (m', [], rw (p, perform, f, if◌then◌else◌) refl, v', (λ u s. x u), nothing_more)
    ]
perform-Performs (sets_active uid) m v e =
    (record m { active_uid = uid }, [], refl, v, (λ u s h. h), nothing_more)
perform-Performs (adds_agent uid agent) m v e =
    let (item, f) = found uid m e in
    (
      add_agent uid agent m,
      [],
      refl,
      add_agent-IsValid uid agent m item f v,
      (λ u s. add_agent-users uid u agent m),
      nothing_more,
    )
perform-Performs (removes_agent uid path) m v e = (
  (remove_agent uid path m).0,
  [],
  refl,
  remove_agent-IsValid uid path m v,
  (λ u s. remove_agent-users uid u path m),
  nothing_more,
)
perform-Performs (removes_session path) m v e = (
  remove_session path m,
  [],
  refl,
  remove_session-IsValid path m v,
  (λ u s. remove_session-users path u m),
  nothing_more,
)
perform-Performs (removes_user uid) m v e = (
  remove_user uid m,
  [],
  refl,
  remove_user-IsValid uid m v,
  (λ u. remove_user-users uid u m),
  nothing_more,
)
perform-Performs (loses_name name) m v e = (
  handle_name_lost name m,
  [],
  refl,
  handle_name_lost-IsValid name m v,
  (λ u s. name_lost-users name u m),
  nothing_more,
)
