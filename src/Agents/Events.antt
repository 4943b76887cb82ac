-- ===== src/Agents/Events.antt =====
-- Any interleaving of the calls and signals that reach the agents' map
-- (src/lastore-daemon/manager_ifc.go, manager.go).
use lastore_daemon.Base.{
  ℕ, Bool, true, not, ◌&&◌, List, [], ◌∷◌, ◌++◌, Option, none, some, String, str_eq, str_eq_iff,
  any, set, ◌≡◌, refl, arith, Option-cases, Bool-cases, inl, inr, ◌∙◌, ap, subst, sym,
}
use lastore_daemon.Agents.{new_user_agent_map}
use lastore_daemon.Agents.Valid.{IsValid, new_user_agent_map-IsValid}
use lastore_daemon.Agents.Handlers.Schedule.{
  Call, adds_user, adds_lang, adds_session, sets_active, adds_agent, removes_agent, removes_session,
  removes_user, loses_name, perform, handle, Daemon, Move, arrives, runs, next_call, put_task, move,
  move_all,
}
use lastore_daemon.Agents.Promised.{
  needs, learn, all_safe, is_safe-keeps, all_safe-keeps, all_safe-set, next_call-is_safe,
  next_call-needs, handle-is_safe,
}
use lastore_daemon.Agents.Performed.{spares, users, perform-Performs}

-- A user is removed while no goroutine has a call to make that counts on the user's item.
abbrev pub is_harmless : Call → List (List Call) → Bool
is_harmless (removes_user uid) tasks = not (any (needs uid) tasks)
is_harmless _ tasks = true

-- No user is removed while a registration of that user is under way.
abbrev pub is_undisturbed_move : Move → Daemon → Bool
is_undisturbed_move (arrives e) d = true
is_undisturbed_move (runs i) d = elim (next_call d.tasks i) [
  | none ↦ true
  | some (c, rest) ↦ is_harmless c d.tasks
]

unfoldable pub is_undisturbed : List Move → Daemon → Bool
is_undisturbed [] d = true
is_undisturbed (x ∷ moves) d =
    is_undisturbed_move x d && (elim (move x d) [ none ↦ true | some d' ↦ is_undisturbed moves d' ])

-- The map is valid, and the calls that are yet to make find what they count on.
abbrev IsSound : Daemon → Type 0
IsSound d = IsValid d.agents × (all_safe (users d.agents) d.tasks ≡ true)

harmless-spares :
    (c : Call) (tasks : List (List Call)) (u : String)
    → is_harmless c tasks ≡ true
    → any (needs u) tasks ≡ true
    → spares c u ≡ true
harmless-spares (adds_user uid) tasks u h n = refl
harmless-spares (adds_lang uid lang) tasks u h n = refl
harmless-spares (adds_session login uid path) tasks u h n = refl
harmless-spares (sets_active uid) tasks u h n = refl
harmless-spares (adds_agent uid agent) tasks u h n = refl
harmless-spares (removes_agent uid path) tasks u h n = refl
harmless-spares (removes_session path) tasks u h n = refl
harmless-spares (loses_name name) tasks u h n = refl
harmless-spares (removes_user uid) tasks u h n = elim (Bool-cases (str_eq uid u)) [
  | inl e ↦
      absurd (
        ground (arith, subst (λ x. any (needs x) tasks ≡ true) (sym ((str_eq_iff uid u).0 e)) n, h))
  | inr e ↦ ap not e
]

learn-more : (k : String → Bool) (c : Call) (u : String) → k u ≡ true → learn k c u ≡ true
learn-more k (adds_user uid) u e = ground arith
learn-more k (adds_lang uid lang) u e = e
learn-more k (adds_session login uid path) u e = e
learn-more k (sets_active uid) u e = e
learn-more k (adds_agent uid agent) u e = e
learn-more k (removes_agent uid path) u e = e
learn-more k (removes_session path) u e = e
learn-more k (removes_user uid) u e = e
learn-more k (loses_name name) u e = e

-- A move of a daemon that goes on.
abbrev Moves : Option Daemon → Type 0
Moves o = (d' : Daemon) × (o ≡ some d') × IsSound d'

runs-Moves :
    (i : ℕ) (d : Daemon) (c : Call) (rest : List Call)
    → IsSound d
    → next_call d.tasks i ≡ some (c, rest)
    → is_harmless c d.tasks ≡ true
    → Moves (put_task i rest d (perform c d.agents))
runs-Moves i d c rest (v, safe) e h =
    let (met, later) = next_call-is_safe d.tasks i c rest (users d.agents) e safe in
    let (m', more, p, v', keeps, idle) = perform-Performs c d.agents v met in
    let others =
      all_safe-keeps d.tasks (users d.agents) (users m')
        (λ u n k. keeps u (harmless-spares c d.tasks u h n) (learn-more (users d.agents) c u k))
        safe in
    let after =
      is_safe-keeps rest (learn (users d.agents) c) (users m')
        (λ u n. keeps u (harmless-spares c d.tasks u h (next_call-needs d.tasks i c rest u e n)))
        later in
    (
      record { agents = m'; tasks = set d.tasks i (more ++ rest) },
      ap (put_task i rest d) p,
      (v', all_safe-set d.tasks i (more ++ rest) (users m') (idle (users m') rest ∙ after) others),
    )

move-Moves : (x : Move) (d : Daemon) → IsSound d → is_undisturbed_move x d ≡ true → Moves (move x d)
unfolding move all_safe
move-Moves (arrives e) d (v, safe) h = (
  record d { tasks = handle e ∷ d.tasks },
  refl,
  (v, ground (arith, handle-is_safe (users d.agents) e, safe)),
)
move-Moves (runs i) d s h = elim (Option-cases (next_call d.tasks i)) [
  | inl e ↦ (d, rw (e, move) refl, s)
  | inr ((c, rest), e) ↦ rw (e, move) (runs-Moves i d c rest s e (ground (arith, h, e)))
]

moved :
    (moves : List Move) (d : Daemon)
    → IsSound d
    → is_undisturbed moves d ≡ true
    → Moves (move_all moves d)
unfolding move_all is_undisturbed
moved [] d s h = (d, refl, s)
moved (x ∷ moves) d s h =
    let (d1, p, s1) = move-Moves x d s (ground (arith, h)) in
    let (d2, p', s2) = moved moves d1 s1 (ground (arith, h, p)) in
    (d2, ap (λ o. elim o [ none ↦ none | some d' ↦ move_all moves d' ]) p ∙ p', s2)

abbrev pub new_daemon : Daemon
new_daemon = record { agents = new_user_agent_map; tasks = [] }

-- Whatever registrations, agents that go, sessions that come and go, users that are removed, bus
-- names that are lost and sessions that become active reach a daemon with a new map, whatever the
-- login manager answers, and in whatever order the operations of the handlers that run at the same
-- time take the lock: if no user is removed while a registration for that user has yet to call
-- `addLang` or `addAgent`, no handler writes to a nil map (which is a panic), and in the end no user
-- has two items, each item has a map of sessions, and no user has two agents or two sessions at one
-- path, or more than eleven agents.
pub move_all-IsValid :
    (moves : List Move)
    → is_undisturbed moves new_daemon ≡ true
    → (d : Daemon) × (move_all moves new_daemon ≡ some d) × IsValid d.agents
unfolding all_safe
move_all-IsValid moves h =
    let (d, p, (v, safe)) = moved moves new_daemon (new_user_agent_map-IsValid, refl) h in (d, p, v)
