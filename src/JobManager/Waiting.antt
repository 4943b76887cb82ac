-- ===== src/JobManager/Waiting.antt =====
-- Jobs that change the system wait for the lock queue (src/lastore-daemon/job_manager.go).
use mathlib.Core.List.{Mem, mem-cons, mem-cons_of_mem, not-mem-nil}
use mathlib.Core.Logic.Or
use lastore_daemon.Base.{
  ℕ, suc, ◌==◌, ==_iff, Bool, true, false, ◌||◌, List, [], ◌∷◌, none, some, String, ◌≡◌, refl, ap,
  ◌∙◌, sym, subst, if◌then◌else◌, inl, inr, Bool-cases, Option-cases, any, arith,
}
use lastore_daemon.System.{status_eq, running, ready}
use lastore_daemon.Job.Transition.Edges.{IsQuiet}
use lastore_daemon.JobQueue.{JobQueue, Store, is_startable, running_in, running_jobs, pending_jobs}
use lastore_daemon.JobQueue.Sort.{Sorter}
use lastore_daemon.JobQueue.Pending.{mem-pending}
use lastore_daemon.JobManager.{
  Manager, Env, queue_named, download_queue, delay_lock_queue, lock_queue,
}
use lastore_daemon.JobManager.Dispatch.{
  Outside, start_one, start_all, start_jobs_in_queue, is_busy, unless_busy, start_queues,
}
use lastore_daemon.JobManager.Framed.{is_queued, has_queue, Frame, FramedManager, start_one-Framed}

any-Mem : (x : ℕ) (ps : List ℕ) → Mem x ps → any (λ y. y == x) ps ≡ true
any-Mem x [] i = absurd (not-mem-nil i)
any-Mem x (p ∷ ps) i =
    Or.elim (hlevel) (mem-cons.0 i) (λ e. ground (arith, e)) (λ j. ground (arith, any-Mem x ps j))

running_in-any :
    {F : Type 0} (st : Store F) (x : ℕ) (ps : List ℕ)
    → any (λ y. y == x) ps ≡ true
    → (st x).status ≡ running
    → (y : ℕ) × (ys : List ℕ) × (running_in st ps ≡ y ∷ ys)
unfolding running_in
running_in-any st x [] e s = absurd (ground (arith, e))
running_in-any st x (p ∷ ps) e s =
    elim (Bool-cases (status_eq (st p).status ready || status_eq (st p).status running)) [
      | inl f ↦ (p, running_in st ps, rw (f, running_in, if◌then◌else◌) refl)
      | inr f ↦ elim (Bool-cases (p == x)) [
        | inl g ↦
            absurd
              (ground (arith, f, subst (λ y. (st y).status ≡ running) (sym ((==_iff p x).0 g)) s))
        | inr g ↦
            let (y, ys, h) = running_in-any st x ps (ground (arith, e, g)) s in
            (y, ys, rw (f, running_in, if◌then◌else◌) h)
      ]
    ]

module _ {F : Type 0} where
  -- The jobs that are not to be started are as before, and every queue has the jobs of before.
  abbrev Starts : (ℕ → Type 0) → Manager F → Manager F → Type 0
  Starts T m m' =
      ((x : ℕ) → ¬ T x → m'.store x ≡ m.store x)
      × ((name : String) (x : ℕ)
          → (is_queued name x m'.queues ≡ is_queued name x m.queues)
            × (has_queue name m'.queues ≡ has_queue name m.queues))

  -- A job that is in a queue and may start.
  abbrev Waits : String → Manager F → ℕ → Type 0
  Waits name m x = (is_queued name x m.queues ≡ true) × (is_startable m.store x ≡ true)

module _ {F : Type 0} (env : Env F) (q : (p : ℕ) → IsQuiet (env.hooks p)) (fuel : ℕ)
    (enough : env.fuel ≡ suc (suc fuel)) (outside : Outside F) where
  one :
      (p : ℕ) (m : Manager F)
      → (m' : Manager F) × (start_one env outside p m ≡ some m') × Frame p m m'
  one p m = elim (Option-cases (start_one env outside p m)) [
    | inl e ↦ absurd (
        ground
          (arith, subst (FramedManager p m) e (start_one-Framed env q fuel enough outside p m)))
    | inr (m', e) ↦
        (m', e, subst (FramedManager p m) e (start_one-Framed env q fuel enough outside p m))
  ]

  all :
      (ps : List ℕ) (m : Manager F)
      → (m' : Manager F) × (start_all env outside ps m ≡ some m') × Starts (λ x. Mem x ps) m m'
  unfolding start_all
  all [] m = (m, refl, ((λ x n. refl), λ name x. (refl, refl)))
  all (p ∷ ps) m =
      let (m1, e, (s, h)) = one p m in
      let (m2, e', (s', h')) = all ps m1 in
      (
        m2,
        ap (λ o. elim o [ none ↦ none | some m' ↦ start_all env outside ps m' ]) e ∙ e',
        (
          (λ x n. s' x (λ i. n (mem-cons_of_mem p i)) ∙ s x (apart x n)),
          λ name x. ((h' name x).0 ∙ (h name x).0, (h' name x).1 ∙ (h name x).1),
        ),
      )
    where
      apart : (x : ℕ) → ¬ Mem x (p ∷ ps) → (x == p) ≡ false
      apart x n = elim (Bool-cases (x == p)) [
        | inl e ↦ absurd (n (mem-cons.1 (Or.inl ((==_iff x p).0 e))))
        | inr e ↦ e
      ]

  module _ (sorter : Sorter) where
    given_out :
        (name : String) (m : Manager F) (found : JobQueue)
        → outside.not_use_dbus ≡ false
        → queue_named name m.queues ≡ some found
        → start_jobs_in_queue env outside sorter name m
          ≡ start_all env outside (pending_jobs sorter m.store found) m
    unfolding start_jobs_in_queue
    given_out name m found b e = rw (b, start_jobs_in_queue, if◌then◌else◌, e) refl

    in_queue :
        (name : String) (m : Manager F)
        → has_queue name m.queues ≡ true
        → (m' : Manager F) × (start_jobs_in_queue env outside sorter name m ≡ some m')
          × Starts (Waits name m) m m'
    unfolding start_jobs_in_queue
    in_queue name m k = elim (Bool-cases outside.not_use_dbus) [
      | inl b ↦ (
        m,
        rw (b, start_jobs_in_queue, if◌then◌else◌) refl,
        ((λ x n. refl), λ other x. (refl, refl)),
      )
      | inr b ↦ elim (Option-cases (queue_named name m.queues)) [
        | inl e ↦ absurd (ground (arith, e, k))
        | inr (found, e) ↦
            let pending = pending_jobs sorter m.store found in
            let (m', ran, (s, h)) = all pending m in
            (
              m',
              given_out name m found b e ∙ ran,
              (
                (λ x n. s x (λ i.
                    let (j, c) = mem-pending sorter m.store found x i in
                    n (rw (e, is_queued) (any-Mem x found.jobs j), c))),
                h,
              ),
            )
      ]
    ]

    busy_running :
        (name : String) (p : ℕ) (m : Manager F)
        → is_queued name p m.queues ≡ true
        → (m.store p).status ≡ running
        → is_busy env outside sorter name m ≡ some true
    unfolding is_busy running_jobs
    busy_running name p m i s = elim (Option-cases (queue_named name m.queues)) [
      | inl e ↦ absurd (ground (arith, e, i))
      | inr (found, e) ↦
          let (y, ys, h) =
            running_in-any m.store p found.jobs
              (ap (λ o. elim o as (λ _. Bool) [ none ↦ false | some q ↦ any (λ y. y == p) q.jobs ])
                  (sym e)
                ∙ i)
              s in
          rw (e, is_busy, h) refl
    ]

    not_startable : (st : Store F) (x : ℕ) → (st x).status ≡ running → ¬ (is_startable st x ≡ true)
    unfolding is_startable
    not_startable st x s e = ground (arith, s, e)

    named :
        (name : String) (p : ℕ) (m : Manager F)
        → is_queued name p m.queues ≡ true
        → has_queue name m.queues ≡ true
    named name p m i = ground (arith, i)

    -- Where the manager has the lock queue, the queue for jobs after it and the download queue, the
    -- hooks of a job on its status leave its status and follower alone, and each transition has fuel
    -- two or more: if a job of the lock queue runs, then the second half of `dispatch`, which starts
    -- jobs, returns, whatever the package manager answers, and every job that is in none of these
    -- three queues stays as it is, so that none that is in the queue of system changes alone is started.
    pub start_queues-waits :
        (m : Manager F) (p : ℕ)
        → is_queued lock_queue p m.queues ≡ true
        → (m.store p).status ≡ running
        → has_queue delay_lock_queue m.queues ≡ true
        → has_queue download_queue m.queues ≡ true
        → (m' : Manager F) × (start_queues env outside sorter m ≡ some m')
          × ((x : ℕ)
              → is_queued lock_queue x m.queues ≡ false
              → is_queued delay_lock_queue x m.queues ≡ false
              → is_queued download_queue x m.queues ≡ false
              → m'.store x ≡ m.store x)
    unfolding start_queues
    start_queues-waits m p i r d1 d2 =
        let (m1, e1, (s1, h1)) = in_queue lock_queue m (named lock_queue p m i) in
        let (m2, e2, (s2, h2)) = in_queue delay_lock_queue m1 ((h1 delay_lock_queue p).1 ∙ d1) in
        let (m3, e3, (s3, h3)) =
          in_queue download_queue m2 ((h2 download_queue p).1 ∙ (h1 download_queue p).1 ∙ d2) in
        let r1 : (m1.store p).status ≡ running =
          ap (λ j. j.status) (s1 p (λ w. not_startable m.store p r w.1)) ∙ r in
        let r2 : (m2.store p).status ≡ running =
          ap (λ j. j.status) (s2 p (λ w. not_startable m1.store p r1 w.1)) ∙ r1 in
        let r3 : (m3.store p).status ≡ running =
          ap (λ j. j.status) (s3 p (λ w. not_startable m2.store p r2 w.1)) ∙ r2 in
        let i3 : is_queued lock_queue p m3.queues ≡ true =
          (h3 lock_queue p).0 ∙ (h2 lock_queue p).0 ∙ (h1 lock_queue p).0 ∙ i in
        let busy = busy_running lock_queue p m3 i3 r3 in
        (
          m3,
          rw (e1, start_queues)
              (rw (e2) (rw (e3) (ap (λ b. unless_busy env outside sorter b m3) busy))),
          λ x n1 n2 n3.
              s3 x (λ w. differ (((h2 download_queue x).0 ∙ (h1 download_queue x).0) ∙ n3) w.0)
              ∙ s2 x (λ w. differ ((h1 delay_lock_queue x).0 ∙ n2) w.0)
              ∙ s1 x (λ w. differ n1 w.0),
        )
      where
        differ : {b : Bool} → b ≡ false → ¬ (b ≡ true)
        differ e f = ground (arith, e, f)
