-- ===== src/JobManager/Started.antt =====
-- The jobs that a queue gives out run after `startJobsInQueue` (src/lastore-daemon/job_manager.go).
use mathlib.Core.List.{
  Mem, Nodup, Nodup-cons, mem-cons, mem-cons_self, mem-cons_of_mem, not-mem-nil,
}
use mathlib.Core.List.Perm
use mathlib.Core.Logic.Or
use lastore_daemon.Base.{
  ℕ, suc, true, false, List, [], ◌∷◌, none, some, String, ◌≡◌, refl, ap, ◌∙◌, sym, subst,
  if◌then◌else◌, ◌==◌, ==_iff, inl, inr, Bool-cases, keep-Nodup, take-Nodup,
}
use lastore_daemon.System.{status_eq, running}
use lastore_daemon.Job.Transition.Edges.{IsQuiet}
use lastore_daemon.JobQueue.{JobQueue, is_startable, pending_jobs}
use lastore_daemon.JobQueue.Sort.{Sorter}
use lastore_daemon.JobQueue.Pending.{pending-perm, mem-pending}
use lastore_daemon.JobManager.{Manager, Env, queue_named}
use lastore_daemon.JobManager.Dispatch.{Outside, SystemCall, start_all, start_jobs_in_queue}
use lastore_daemon.JobManager.Starting.{IsCalm, IsRetryHook, has_request, start_one-Moved}

-- What the manager calls does not object: the hooks report no error and leave status, type and
-- follower of their job alone, the package manager takes every request, and the hook before the
-- count of retries leaves status and type of its job alone.
pub record Agreeable {F : Type 0} (env : Env F) (outside : Outside F) : Type 0 where
  pub quiet : (p : ℕ) → IsQuiet (env.hooks p)
  pub calm : (p : ℕ) → IsCalm (env.hooks p)
  pub agrees : (call : SystemCall) → outside.answer call ≡ none
  pub retries : (p : ℕ) → IsRetryHook (outside.retry_hook p)

differs : (x p : ℕ) (ps : List ℕ) → ¬ Mem p ps → Mem x ps → (x == p) ≡ false
differs x p ps fresh i = elim (Bool-cases (x == p)) [
  | inl e ↦ absurd (fresh (subst (λ y. Mem y ps) ((==_iff x p).0 e) i))
  | inr e ↦ e
]

module _ {F : Type 0} (env : Env F) (outside : Outside F) (a : Agreeable env outside) (fuel : ℕ)
    (enough : env.fuel ≡ suc (suc fuel)) where
  abbrev pub Startable : Manager F → ℕ → Type 0
  Startable m p = (is_startable m.store p ≡ true) × (has_request (m.store p).job_type ≡ true)

  Startable-same :
      (m m' : Manager F) (x : ℕ) → m'.store x ≡ m.store x → Startable m x → Startable m' x
  unfolding is_startable
  Startable-same m m' x e (s, k) = (rw e s, rw e k)

  start_all-running :
      (ps : List ℕ) (m : Manager F)
      → Nodup ps
      → ((p : ℕ) → Mem p ps → Startable m p)
      → (m' : Manager F) × (start_all env outside ps m ≡ some m')
        × ((p : ℕ) → Mem p ps → status_eq (m'.store p).status running ≡ true)
        × ((x : ℕ) → ¬ Mem x ps → m'.store x ≡ m.store x)
  unfolding start_all
  start_all-running [] m d s = (m, refl, (λ p i. absurd (not-mem-nil i)), λ x n. refl)
  start_all-running (p ∷ ps) m d s =
      let (fresh, d') = Nodup-cons.0 d in
      let (startable, known) = s p mem-cons_self in
      let (m1, one, (status1, _, others1)) =
        start_one-Moved env a.quiet a.calm fuel enough outside a.agrees a.retries p m startable
          known in
      let keeps : (x : ℕ) → Mem x ps → m1.store x ≡ m.store x =
        λ x i. others1 x (differs x p ps fresh i) in
      let (m2, rest, runs, others2) =
        start_all-running ps m1 d'
          (λ x i. Startable-same m m1 x (keeps x i) (s x (mem-cons_of_mem p i))) in
      (
        m2,
        ap (λ o. elim o [ none ↦ none | some m' ↦ start_all env outside ps m' ]) one ∙ rest,
        (λ x i.
            Or.elim (hlevel) (mem-cons.0 i)
              (λ e.
                subst (λ y. status_eq (m2.store y).status running ≡ true) (sym e)
                  (ap (λ j. status_eq j.status running) (others2 p fresh)
                    ∙ ap (λ t. status_eq t running) status1))
              (runs x)),
        λ x n. others2 x (λ i. n (mem-cons_of_mem p i)) ∙ others1 x (other x n),
      )
    where
      other : (x : ℕ) → ¬ Mem x (p ∷ ps) → (x == p) ≡ false
      other x n = elim (Bool-cases (x == p)) [
        | inl e ↦ absurd (n (mem-cons.1 (Or.inl ((==_iff x p).0 e))))
        | inr e ↦ e
      ]

  -- Where the daemon uses the bus (`NotUseDBus` is false), the manager has the queue, no job is in it
  -- twice and all its jobs have a type that the package manager is asked for; where the hooks of a job
  -- on its status report no error and leave its status, type and follower alone, the hook before the
  -- count of retries leaves status and type alone, and the package manager takes every request; and
  -- where each transition has fuel two or more: there `startJobsInQueue` returns, with every job
  -- running that the queue gives out, and with the other jobs as they were.
  pub start_jobs_in_queue-running :
      (sorter : Sorter) (name : String) (m : Manager F) (q : JobQueue)
      → outside.not_use_dbus ≡ false
      → queue_named name m.queues ≡ some q
      → Nodup q.jobs
      → ((p : ℕ) → Mem p q.jobs → has_request (m.store p).job_type ≡ true)
      → (m' : Manager F) × (start_jobs_in_queue env outside sorter name m ≡ some m')
        × ((p : ℕ)
            → Mem p (pending_jobs sorter m.store q)
            → status_eq (m'.store p).status running ≡ true)
        × ((x : ℕ) → ¬ Mem x (pending_jobs sorter m.store q) → m'.store x ≡ m.store x)
  unfolding start_jobs_in_queue
  start_jobs_in_queue-running sorter name m q bus at d k =
      let pending = pending_jobs sorter m.store q in
      let d' : Nodup pending =
        Perm.nodup (Perm.symm (pending-perm sorter m.store q))
          (take-Nodup _ _ (keep-Nodup (is_startable m.store) q.jobs d)) in
      let (m', started, runs, others) =
        start_all-running pending m d'
          (λ p i. let (j, e) = mem-pending sorter m.store q p i in (e, k p j)) in
      (m', rw (bus, start_jobs_in_queue, if◌then◌else◌, at) started, runs, others)
