-- ===== src/JobManager/Framed.antt =====
-- What the start of one job changes (`startJobsInQueue` of src/lastore-daemon/job_manager.go).
use lastore_daemon.Base.{
  ℕ, suc, Bool, true, false, List, [], ◌∷◌, Option, none, some, String, str_eq, ◌≡◌, refl, ◌∙◌, sym,
  if◌then◌else◌, ◌==◌, inl, inr, Bool-cases, Option-cases, any, arith,
}
use lastore_daemon.System.{
  Status, status_eq, running, ready, failed, Error, job_error, not_found, not_support, exists_job,
  message,
}
use lastore_daemon.Job.{Job, sub_retry_count}
use lastore_daemon.Job.Transition.{transition, is_some}
use lastore_daemon.Job.Transition.Edges.{IsQuiet, transition_settles}
use lastore_daemon.Job.Update.{set_error}
use lastore_daemon.Base.Int.{pos, int_eq}
use lastore_daemon.JobQueue.{JobQueue}
use lastore_daemon.JobQueue.Bag.{any-perm}
use lastore_daemon.JobQueue.Members.{raise_lem}
use lastore_daemon.JobManager.{
  Manager, Env, Ran, queue_named, put_queue, put_job, change_status, mark_dirty, mark_ready,
  mark_start, raise_after, raise_in,
}
use lastore_daemon.JobManager.Dispatch.{
  Outside, manager_of, request, call_of, start_system_job, note_failure, fail_after, start_one,
}

-- A job is in the queue with a name.
abbrev pub is_queued : String → ℕ → List JobQueue → Bool
is_queued name x qs = elim (queue_named name qs) [
  | none ↦ false
  | some q ↦ any (λ y. y == x) q.jobs
]

abbrev pub has_queue : String → List JobQueue → Bool
has_queue name qs = is_some (queue_named name qs)

put_queue-is_queued :
    (qs : List JobQueue) (q q' : JobQueue) (name other : String) (x : ℕ)
    → queue_named name qs ≡ some q
    → q'.name ≡ q.name
    → any (λ y. y == x) q'.jobs ≡ any (λ y. y == x) q.jobs
    → (is_queued other x (put_queue name q' qs) ≡ is_queued other x qs)
      × (has_queue other (put_queue name q' qs) ≡ has_queue other qs)
unfolding queue_named put_queue
put_queue-is_queued [] q q' name other x e n h = (refl, refl)
put_queue-is_queued (r ∷ qs) q q' name other x e n h = elim (Bool-cases (str_eq r.name name)) [
  | inl f ↦ ground (arith, e, n, h, f)
  | inr f ↦ ground (arith, e, n, h, f, put_queue-is_queued qs q q' name other x)
]

module _ {F : Type 0} where
  -- All jobs but one are as before, and every queue has the jobs of before.
  abbrev pub Frame : ℕ → Manager F → Manager F → Type 0
  Frame p m m' =
      ((x : ℕ) → (x == p) ≡ false → m'.store x ≡ m.store x)
      × ((name : String) (x : ℕ)
          → (is_queued name x m'.queues ≡ is_queued name x m.queues)
            × (has_queue name m'.queues ≡ has_queue name m.queues))

  pub Frame-trans : (p : ℕ) (a b c : Manager F) → Frame p a b → Frame p b c → Frame p a c
  Frame-trans p a b c (s, h) (s', h') = (
    (λ x n. s' x n ∙ s x n),
    (λ name x. ((h' name x).0 ∙ (h name x).0, (h' name x).1 ∙ (h name x).1)),
  )

  put-Frame :
      (p : ℕ) (j : Job F) (m : Manager F) → Frame p m (record m { store = put_job p j m.store })
  put-Frame p j m = ((λ x n. rw (n, if◌then◌else◌) refl), λ name x. (refl, refl))

  raise_in-Frame : (p : ℕ) (name id : String) (m : Manager F) → Frame p m (raise_in name id m).0
  unfolding raise_in
  raise_in-Frame p name id m = elim (Option-cases (queue_named name m.queues)) [
    | inl e ↦ rw (e, raise_in) ((λ x n. refl), λ other x. (refl, refl))
    | inr (q, e) ↦ elim (raise_lem m.store q id) [
      | inl (missing, r) ↦ rw (e, raise_in, r) ((λ x n. refl), λ other x. (refl, refl))
      | inr (x0, ps, found, r, perm) ↦
          rw (e, raise_in, r)
            (
              (λ x n. refl),
              λ other x.
                  put_queue-is_queued m.queues q (record q { jobs = x0 ∷ ps }) name other x e refl
                    (sym (any-perm (λ y. y == x) q.jobs (x0 ∷ ps) perm)),
            )
    ]
  ]

  -- An operation on one job returns, and has that effect.
  abbrev Framed : ℕ → Manager F → Ran F → Type 0
  Framed p m none = true ≡ false
  Framed p m (some (m', e)) = Frame p m m'

  abbrev pub FramedManager : ℕ → Manager F → Option (Manager F) → Type 0
  FramedManager p m none = true ≡ false
  FramedManager p m (some m') = Frame p m m'

  from : (p : ℕ) (a b : Manager F) (r : Ran F) → Frame p a b → Framed p b r → Framed p a r
  from p a b none f g = g
  from p a b (some (c, e)) f g = Frame-trans p a b c f g

  from_manager :
      (p : ℕ) (a b : Manager F) (r : Option (Manager F))
      → Frame p a b
      → FramedManager p b r
      → FramedManager p a r
  from_manager p a b none f g = g
  from_manager p a b (some c) f g = Frame-trans p a b c f g

  manager_of-Framed :
      (p : ℕ) (m : Manager F) (r : Ran F) → Framed p m r → FramedManager p m (manager_of r)
  manager_of-Framed p m none f = f
  manager_of-Framed p m (some (m', e)) f = f

  same-Frame : (p : ℕ) (m : Manager F) → Frame p m m
  same-Frame p m = ((λ x n. refl), λ name x. (refl, refl))

module _ {F : Type 0} (env : Env F) (q : (p : ℕ) → IsQuiet (env.hooks p)) (fuel : ℕ)
    (enough : env.fuel ≡ suc (suc fuel)) (outside : Outside F) (p : ℕ) where
  change-Framed : (to : Status) (m : Manager F) → Framed p m (change_status env p to m)
  unfolding change_status
  change-Framed to m = elim (Option-cases (transition env.fuel (env.hooks p) (m.store p) to)) [
    | inl e ↦
        absurd
          (ground (arith, e, enough, transition_settles (env.hooks p) (q p) fuel (m.store p) to))
    | inr (o, e) ↦ rw (e, change_status) (put-Frame p o.job m)
  ]

  ready-Framed : (m : Manager F) → Framed p m (mark_ready env p m)
  unfolding mark_ready mark_dirty
  ready-Framed m = elim (Bool-cases (status_eq (m.store p).status ready)) [
    | inl e ↦ rw (e, mark_ready, if◌then◌else◌) (same-Frame p m)
    | inr e ↦ rw (e, mark_ready, if◌then◌else◌) (change-Framed ready (mark_dirty m))
  ]

  raise-Framed : (m : Manager F) (r : Ran F) → Framed p m r → Framed p m (raise_after env p r)
  raise-Framed m none f = f
  raise-Framed m (some (m', some e)) f = f
  raise-Framed m (some (m', none)) f =
      Frame-trans p m m' (raise_in (m'.store p).queue_name (m'.store p).id m').0 f
        (raise_in-Frame p (m'.store p).queue_name (m'.store p).id m')

  request-Framed : (m : Manager F) (r : Ran F) → Framed p m r → Framed p m (request env outside p r)
  request-Framed m none f = f
  request-Framed m (some (m', some e)) f = f
  request-Framed m (some (m', none)) f = elim (Option-cases (call_of (m'.store p))) [
    | inl e ↦ rw (e, request) f
    | inr (call, e) ↦ rw (e, request) f
  ]

  start_system_job-Framed : (m : Manager F) → Framed p m (start_system_job env outside p m)
  unfolding start_system_job
  start_system_job-Framed m =
      let j : Job F = record (m.store p) { description = "" } in
      let m0 : Manager F = record m { store = put_job p j m.store } in
      request-Framed m _ (from p m m0 _ (put-Frame p j m) (change-Framed running m0))

  unretried :
      (e : Error) (m : Manager F)
      → Frame p m (
          if int_eq (m.store p).retry (pos 0)
          then record m {
            store =
                put_job p (set_error outside.marshal (outside.start_error e) (m.store p)) m.store;
          }
          else m)
  unretried e m = elim (Bool-cases (int_eq (m.store p).retry (pos 0))) [
    | inl z ↦ rw (z, if◌then◌else◌) (put-Frame p _ m)
    | inr z ↦ rw (z, if◌then◌else◌) (same-Frame p m)
  ]

  note_failure-Frame : (e : Error) (m : Manager F) → Frame p m (note_failure env outside p e m)
  unfolding note_failure
  note_failure-Frame (job_error e) m = put-Frame p _ m
  note_failure-Frame (not_found name) m = unretried (not_found name) m
  note_failure-Frame not_support m = unretried not_support m
  note_failure-Frame exists_job m = unretried exists_job m
  note_failure-Frame (message text) m = unretried (message text) m

  fail_after-Framed :
      (m : Manager F) (r : Ran F) → Framed p m r → FramedManager p m (fail_after env outside p r)
  fail_after-Framed m none f = f
  fail_after-Framed m (some (m', none)) f = f
  fail_after-Framed m (some (m', some e)) f =
      let noted = note_failure env outside p e m' in
      from_manager p m noted _ (Frame-trans p m m' noted f (note_failure-Frame e m'))
        (manager_of-Framed p noted _ (change-Framed failed noted))

  then-Framed :
      (m : Manager F) (r : Option (Manager F))
      → FramedManager p m r
      → FramedManager p m (elim r as (λ _. Option (Manager F)) [
        | none ↦ none
        | some m' ↦ fail_after env outside p (start_system_job env outside p m')
      ])
  then-Framed m none f = f
  then-Framed m (some m') f =
      from_manager p m m' _ f (fail_after-Framed m' _ (start_system_job-Framed m'))

  pub start_one-Framed : (m : Manager F) → FramedManager p m (start_one env outside p m)
  unfolding start_one mark_start
  start_one-Framed m =
      let j : Job F = sub_retry_count (outside.retry_hook p) false (m.store p) in
      let counted : Manager F = record m { store = put_job p j m.store } in
      elim (Bool-cases (status_eq (m.store p).status failed)) [
        | inr e ↦ rw (e, start_one, if◌then◌else◌) (then-Framed m (some m) (same-Frame p m))
        | inl e ↦
            rw (e, start_one, if◌then◌else◌)
              (then-Framed m (manager_of (mark_start env p counted)) (
                from_manager p m counted _ (put-Frame p j m) (
                  manager_of-Framed p counted _
                    (raise-Framed counted (mark_ready env p counted) (ready-Framed counted)))))
      ]
