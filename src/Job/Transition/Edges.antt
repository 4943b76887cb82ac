-- ===== src/Job/Transition/Edges.antt =====
-- Which states a transition leads to, on every path of `TransitionJobState`.
use lastore_daemon.Base.{
  ℕ, suc, true, false, some, ◌≡◌, ◌⊎◌, inl, inr, arith, Bool-cases, ◌++◌, if◌then◌else◌,
}
use lastore_daemon.System.{Status, succeed, end}
use lastore_daemon.Job.{Job}
use lastore_daemon.Job.Transition.{
  Hooks, Outcome, run_hook, transition_once, transition, valid_transition,
}

-- Hooks that leave the status of the job, and what follows it, alone.
pub record IsQuiet {F : Type 0} (h : Hooks F) : Type 0 where
  pub pre_status : (s : Status) (j : Job F) → (run_hook (h.pre s) j).0.status ≡ j.status
  pub after_status : (s : Status) (j : Job F) → (run_hook (h.after s) j).0.status ≡ j.status
  pub pre_next : (s : Status) (j : Job F) → (run_hook (h.pre s) j).0.next ≡ j.next
  pub after_next : (s : Status) (j : Job F) → (run_hook (h.after s) j).0.next ≡ j.next

-- The job as `enter` finds it, with its new status.
abbrev pub entered : {F : Type 0} → Hooks F → Job F → Status → Job F
entered {F} h j to = let j1 : Job F = (run_hook (h.pre to) j).0 in record j1 { status = to }

module _ {F : Type 0} (h : Hooks F) (q : IsQuiet h) where
  once_edge :
      (j : Job F) (to : Status)
      → ((transition_once h j to).0.job.status ≡ j.status)
        ⊎ (valid_transition j.status to ≡ true) × ((transition_once h j to).0.job.status ≡ to)
  unfolding transition_once
  once_edge j to = ground (arith, q.pre_status to j, q.after_status to (entered h j to))

  once_again :
      (j : Job F) (to : Status)
      → (transition_once h j to).1 ≡ true
      → (to ≡ succeed)
        × (valid_transition j.status to ≡ true)
        × ((transition_once h j to).0.job.status ≡ succeed)
  unfolding transition_once
  once_again j to e = ground (arith, q.after_status to (entered h j to))

  once_end : (j : Job F) → (transition_once h j end).1 ≡ false
  unfolding transition_once
  once_end j = ground (arith, q.after_status end (entered h j end))

  -- The outcome when the call that `TransitionJobState` may end in is made once.
  abbrev pub settled : Job F → Status → Outcome F
  settled j to =
      let (o, again) = transition_once h j to in
      let last : Outcome F = (transition_once h o.job end).0 in
      if again then record last { trace = o.trace ++ last.trace } else o

  -- With hooks that leave the status and the follower of their job alone, `TransitionJobState` returns: it calls itself at most
  -- once, and fuel two is enough for every job and every target.
  pub transition_settles :
      (fuel : ℕ) (j : Job F) (to : Status)
      → transition (suc (suc fuel)) h j to ≡ some (settled j to)
  unfolding transition
  transition_settles fuel j to = elim (Bool-cases (transition_once h j to).1) [
    | inl e ↦ rw (e, transition) (rw (once_end (transition_once h j to).0.job))
    | inr e ↦ rw (e, transition)
  ]

  settled_edge :
      (j : Job F) (to : Status)
      → ((settled j to).job.status ≡ j.status)
        ⊎ (valid_transition j.status to ≡ true)
          × (((settled j to).job.status ≡ to) ⊎ (to ≡ succeed) × ((settled j to).job.status ≡ end))
  settled_edge j to =
      ground (arith, once_edge j to, once_again j to, once_edge (transition_once h j to).0.job end)

  -- With hooks that leave the status and the follower of their job alone, whatever they report, a
  -- transition leaves the job in
  -- its old state, or the edge to the requested state is in the table `validation` and the job is
  -- in that state, or in `end` when `succeed` was requested.
  pub transition_edge :
      (fuel : ℕ) (j : Job F) (to : Status) (o : Outcome F)
      → transition (suc (suc fuel)) h j to ≡ some o
      → (o.job.status ≡ j.status)
        ⊎ (valid_transition j.status to ≡ true)
          × ((o.job.status ≡ to) ⊎ (to ≡ succeed) × (o.job.status ≡ end))
  transition_edge fuel j to o e = ground (arith, transition_settles fuel j to, settled_edge j to)
