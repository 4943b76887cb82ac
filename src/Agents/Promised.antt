-- ===== src/Agents/Promised.antt =====
-- Calls that count on a user's item in the agents' map, which an earlier call of their handler makes
-- (src/lastore-daemon/manager_ifc.go).
use lastore_daemon.Base.{
  ℕ, zero, suc, Bool, true, false, ◌&&◌, ◌||◌, List, [], ◌∷◌, ◌++◌, Option, none, some, String,
  str_eq, str_eq_self, if◌then◌else◌, any, set, ◌≡◌, refl, arith, Option-cases, inl, inr,
  Bool-cases,
}
use lastore_daemon.Agents.{Agent}
use lastore_daemon.Agents.Handlers.{Login}
use lastore_daemon.Agents.Handlers.Schedule.{
  Call, adds_user, adds_lang, adds_session, sets_active, adds_agent, removes_agent, removes_session,
  removes_user, loses_name, Registering, update_lang, add_sessions, add_object, register_user,
  register_agent, unregister_agent, session_calls, active_changed, Event, handle, next_call,
}

-- A call counts on a user's item.
abbrev pub counts_on : String → Call → Bool
counts_on uid (adds_lang u lang) = str_eq u uid
counts_on uid (adds_agent u agent) = str_eq u uid
counts_on uid _ = false

abbrev pub needs : String → List Call → Bool
needs uid calls = any (counts_on uid) calls

abbrev pub is_met : (String → Bool) → Call → Bool
is_met k (adds_lang u lang) = k u
is_met k (adds_agent u agent) = k u
is_met k _ = true

-- The users that have an item after a call.
abbrev pub learn : (String → Bool) → Call → String → Bool
learn k (adds_user u) uid = str_eq u uid || k uid
learn k _ uid = k uid

-- Every call that counts on a user's item finds it, be it one of before or of an earlier call.
unfoldable pub is_safe : (String → Bool) → List Call → Bool
is_safe k [] = true
is_safe k (c ∷ calls) = is_met k c && is_safe (learn k c) calls

unfoldable pub all_safe : (String → Bool) → List (List Call) → Bool
unfolding is_safe
all_safe k [] = true
all_safe k (t ∷ tasks) = is_safe k t && all_safe k tasks

-- What two sets of users have in common as far as calls need it.
abbrev pub Covers : (String → Bool) → (k k' : String → Bool) → Type 0
Covers n k k' = (u : String) → n u ≡ true → k u ≡ true → k' u ≡ true

met-keeps :
    (k k' : String → Bool) (c : Call) (calls : List Call)
    → Covers (λ u. needs u (c ∷ calls)) k k'
    → is_met k c ≡ true
    → is_met k' c ≡ true
met-keeps k k' (adds_lang u lang) calls h e = h u (ground (arith, str_eq_self u)) e
met-keeps k k' (adds_agent u agent) calls h e = h u (ground (arith, str_eq_self u)) e
met-keeps k k' (adds_user u) calls h e = refl
met-keeps k k' (adds_session login u path) calls h e = refl
met-keeps k k' (sets_active u) calls h e = refl
met-keeps k k' (removes_agent u path) calls h e = refl
met-keeps k k' (removes_session path) calls h e = refl
met-keeps k k' (removes_user u) calls h e = refl
met-keeps k k' (loses_name name) calls h e = refl

learn-keeps :
    (k k' : String → Bool) (c : Call) (n : String → Bool)
    → Covers n k k'
    → Covers n (learn k c) (learn k' c)
learn-keeps k k' (adds_user u) n h = λ v e f. ground (arith, h v e, f)
learn-keeps k k' (adds_lang u lang) n h = h
learn-keeps k k' (adds_agent u agent) n h = h
learn-keeps k k' (adds_session login u path) n h = h
learn-keeps k k' (sets_active u) n h = h
learn-keeps k k' (removes_agent u path) n h = h
learn-keeps k k' (removes_session path) n h = h
learn-keeps k k' (removes_user u) n h = h
learn-keeps k k' (loses_name name) n h = h

pub is_safe-keeps :
    (calls : List Call) (k k' : String → Bool)
    → Covers (λ u. needs u calls) k k'
    → is_safe k calls ≡ true
    → is_safe k' calls ≡ true
unfolding is_safe
is_safe-keeps [] k k' h e = refl
is_safe-keeps (c ∷ calls) k k' h e =
    let rest : Covers (λ u. needs u calls) k k' = λ u n. h u (ground (arith, n)) in
    ground (
      arith,
      met-keeps k k' c calls h,
      is_safe-keeps calls (learn k c) (learn k' c) (learn-keeps k k' c (λ u. needs u calls) rest),
    )

pub all_safe-keeps :
    (tasks : List (List Call)) (k k' : String → Bool)
    → Covers (λ u. any (needs u) tasks) k k'
    → all_safe k tasks ≡ true
    → all_safe k' tasks ≡ true
unfolding all_safe
all_safe-keeps [] k k' h e = refl
all_safe-keeps (t ∷ tasks) k k' h e = ground (
  arith,
  is_safe-keeps t k k' (λ u n. h u (ground (arith, n))),
  all_safe-keeps tasks k k' (λ u n. h u (ground (arith, n))),
)

pub all_safe-set :
    (tasks : List (List Call)) (i : ℕ) (t : List Call) (k : String → Bool)
    → is_safe k t ≡ true
    → all_safe k tasks ≡ true
    → all_safe k (set tasks i t) ≡ true
unfolding all_safe
all_safe-set [] i t k e h = refl
all_safe-set (x ∷ tasks) zero t k e h = ground arith
all_safe-set (x ∷ tasks) (suc i) t k e h = ground (arith, all_safe-set tasks i t k e)

-- The next call of a goroutine finds what it counts on, and so do those after it.
pub next_call-is_safe :
    (tasks : List (List Call)) (i : ℕ) (c : Call) (rest : List Call) (k : String → Bool)
    → next_call tasks i ≡ some (c, rest)
    → all_safe k tasks ≡ true
    → (is_met k c ≡ true) × (is_safe (learn k c) rest ≡ true)
unfolding all_safe
next_call-is_safe [] i c rest k e h = absurd (ground (arith, e))
next_call-is_safe ([] ∷ tasks) zero c rest k e h = absurd (ground (arith, e))
next_call-is_safe ((x ∷ t) ∷ tasks) zero c rest k e h = ground (arith, e, h)
next_call-is_safe (t ∷ tasks) (suc i) c rest k e h =
    next_call-is_safe tasks i c rest k e (ground (arith, h))

pub next_call-needs :
    (tasks : List (List Call)) (i : ℕ) (c : Call) (rest : List Call) (u : String)
    → next_call tasks i ≡ some (c, rest)
    → needs u rest ≡ true
    → any (needs u) tasks ≡ true
next_call-needs [] i c rest u e h = absurd (ground (arith, e))
next_call-needs ([] ∷ tasks) zero c rest u e h = absurd (ground (arith, e))
next_call-needs ((x ∷ t) ∷ tasks) zero c rest u e h = ground (arith, e, h)
next_call-needs (t ∷ tasks) (suc i) c rest u e h =
    ground (arith, next_call-needs tasks i c rest u e h)

sessions_safe :
    (k : String → Bool) (login : Login) (uid : String) (details : List (String × String))
    (agent : Option Agent)
    → k uid ≡ true
    → is_safe k (add_sessions login uid details ++ add_object agent uid) ≡ true
unfolding is_safe add_sessions add_object
sessions_safe k login uid [] none e = refl
sessions_safe k login uid [] (some agent) e = ground arith
sessions_safe k login uid ((user, path) ∷ details) agent e =
    ground (arith, sessions_safe k login uid details agent e)

register_user-is_safe :
    (k : String → Bool) (r : Registering) (uid : String) → is_safe k (register_user r uid) ≡ true
unfolding is_safe register_user update_lang
register_user-is_safe k r uid = elim (Option-cases r.sessions) [
  | inl s ↦ rw (s, register_user) refl
  | inr (details, s) ↦
      let mine : (str_eq uid uid || k uid) ≡ true = ground (arith, str_eq_self uid) in
      let rest = sessions_safe (λ u. str_eq uid u || k u) r.login uid details r.agent mine in
      elim (Bool-cases r.has_pid) [
        | inr p ↦ rw (s, register_user, p, if◌then◌else◌) refl
        | inl p ↦ elim (Option-cases r.environ) [
          | inl n ↦ rw (s, register_user, p, if◌then◌else◌, n) rest
          | inr (env, n) ↦ rw (s, register_user, p, if◌then◌else◌, n) (ground (arith, mine, rest))
        ]
      ]
]

-- The handler of an event counts on no item but those that it makes sure of.
pub handle-is_safe : (k : String → Bool) (e : Event) → is_safe k (handle e) ≡ true
unfolding is_safe handle register_agent unregister_agent session_calls active_changed
handle-is_safe k (Event.registered r) = elim (Option-cases r.uid) [
  | inl u ↦ rw (u, handle) refl
  | inr (uid, u) ↦ rw (u, handle) (register_user-is_safe k r uid)
]
handle-is_safe k (Event.unregistered none path) = refl
handle-is_safe k (Event.unregistered (some uid) path) = refl
handle-is_safe k (Event.session_new login path) = ground arith
handle-is_safe k (Event.session_removed path) = refl
handle-is_safe k (Event.user_removed uid) = refl
handle-is_safe k (Event.name_lost name) = refl
handle-is_safe k (Event.activated uid has_value active) = ground arith
