-- ===== src/JobManager/Control.antt =====
-- What starting, pausing and cleaning a job does.
use lastore_daemon.Base.{
  ℕ, suc, Bool, true, false, List, [], ◌∷◌, Option, none, some, String, ◌≡◌, refl, arith,
  if◌then◌else◌, Option-cases, inl, inr, ◌∙◌, ap, sym, subst,
}
use lastore_daemon.System.{Status, ready, paused, end, Error}
use lastore_daemon.Job.{Job}
use lastore_daemon.Job.Transition.{Hooks, transition_once, valid_transition}
use lastore_daemon.Job.Transition.Edges.{IsQuiet, settled, entered, transition_settles}
use lastore_daemon.JobQueue.{JobQueue, Store, find}
use lastore_daemon.JobQueue.Members.{raise_lem, find_lem}
use lastore_daemon.JobManager.{
  Manager, Env, Ran, put_job, change_status, pause_found, pause_job, end_job, clean_job,
  find_job_by_id, end_after, mark_ready, mark_start, mark_dirty, raise_after, raise_in, queue_named,
  put_queue,
}

-- The states that a client's request leads to.
abbrev is_asked : Status → Bool
is_asked paused = true
is_asked end = true
is_asked ready = true
is_asked _ = false

module _ {F : Type 0} (h : Hooks F) (q : IsQuiet h) where
  -- A transition to such a state that reports no error arrives, and leaves what follows the job.
  settled_arrives :
      (j : Job F) (to : Status)
      → is_asked to ≡ true
      → (settled h q j to).error ≡ none
      → (valid_transition j.status to ≡ true)
        × ((settled h q j to).job.status ≡ to)
        × ((settled h q j to).job.next ≡ j.next)
  unfolding transition_once
  settled_arrives j to kind ok =
      ground (
        arith,
        q.pre_next to j,
        q.after_status to (entered h j to),
        q.after_next to (entered h j to),
      )

module _ {F : Type 0} (env : Env F) (q : (p : ℕ) → IsQuiet (env.hooks p)) where
  change_lem :
      (fuel p : ℕ) (to : Status) (m m' : Manager F)
      → env.fuel ≡ suc (suc fuel)
      → is_asked to ≡ true
      → change_status env p to m ≡ some (m', none)
      → (valid_transition (m.store p).status to ≡ true)
        × ((m'.store p).status ≡ to)
        × ((m'.store p).next ≡ (m.store p).next)
        × (m'.queues ≡ m.queues)
  unfolding change_status
  change_lem fuel p to m m' enough kind e = ground (
    arith,
    transition_settles (env.hooks p) (q p) fuel (m.store p) to,
    settled_arrives (env.hooks p) (q p) (m.store p) to,
  )

  found_pauses :
      (fuel p : ℕ) (m m' : Manager F)
      → env.fuel ≡ suc (suc fuel)
      → pause_found env p m ≡ some (m', none)
      → ((m'.store p).status ≡ paused) × (m'.queues ≡ m.queues)
  unfolding pause_found
  found_pauses fuel p m m' enough e = ground (arith, change_lem fuel p paused m m')

  -- With hooks that leave the status and the follower of their job alone, and fuel two or more,
  -- `PauseJob` of a queued job that reports no error leaves the job paused, and every queue as it was.
  pub pause_job_pauses :
      (fuel p : ℕ) (id : String) (m m' : Manager F)
      → env.fuel ≡ suc (suc fuel)
      → find_job_by_id id m ≡ some p
      → pause_job env id m ≡ some (m', none)
      → ((m'.store p).status ≡ paused) × (m'.queues ≡ m.queues)
  unfolding pause_job
  pause_job_pauses fuel p id m m' enough found e = ground (arith, found_pauses fuel p m m' enough)

  end_lem :
      (fuel p : ℕ) (m m' : Manager F)
      → env.fuel ≡ suc (suc fuel)
      → end_job env p m ≡ some (m', none)
      → ((m'.store p).status ≡ end) × ((m'.store p).next ≡ none) × (m'.queues ≡ m.queues)
  unfolding end_job
  end_lem fuel p m m' enough e =
      let j : Job F = m.store p in
      let cut : Job F = if valid_transition j.status end then record j { next = none } else j in
      let m1 : Manager F = record m { store = put_job p cut m.store } in
      ground (arith, change_lem fuel p end m1 m')

  paused_end :
      (fuel p : ℕ) (m m' : Manager F) (r : Ran F)
      → env.fuel ≡ suc (suc fuel)
      → pause_found env p m ≡ r
      → end_after env p r ≡ some (m', none)
      → ((m'.store p).status ≡ end) × ((m'.store p).next ≡ none) × (m'.queues ≡ m.queues)
  paused_end fuel p m m' none enough e f = ground arith
  paused_end fuel p m m' (some (m1, some err)) enough e f = ground arith
  paused_end fuel p m m' (some (m1, none)) enough e f =
      let (_, same) = found_pauses fuel p m m1 enough e in
      let (ended, last, kept) = end_lem fuel p m1 m' enough f in (ended, last, kept ∙ same)

  -- With hooks that leave the status and the follower of their job alone, and fuel two or more,
  -- `CleanJob` of a queued job that reports no error leaves the job ended with no job to follow it, and every queue as it was.
  pub clean_job_ends :
      (fuel p : ℕ) (id : String) (m m' : Manager F)
      → env.fuel ≡ suc (suc fuel)
      → find_job_by_id id m ≡ some p
      → clean_job env id m ≡ some (m', none)
      → ((m'.store p).status ≡ end) × ((m'.store p).next ≡ none) × (m'.queues ≡ m.queues)
  unfolding clean_job
  clean_job_ends fuel p id m m' enough found e =
      ground (
        arith,
        end_lem fuel p m m' enough,
        paused_end fuel p m m' (pause_found env p m) enough refl,
      )

queue_named-put_queue :
    (name : String) (q q' : JobQueue) (qs : List JobQueue)
    → queue_named name qs ≡ some q
    → q'.name ≡ q.name
    → queue_named name (put_queue name q' qs) ≡ some q'
unfolding queue_named put_queue
queue_named-put_queue name q q' [] e same = ground arith
queue_named-put_queue name q q' (x ∷ qs) e same = ground (arith, queue_named-put_queue name q q' qs)

module _ {F : Type 0} where
  -- A job with the id stands at the head of the queue with the name.
  abbrev pub IsFirst : String → String → Manager F → Type 0
  IsFirst name id m =
      (q : JobQueue) × (x : ℕ) × (ps : List ℕ) × (queue_named name m.queues ≡ some q)
      × (q.jobs ≡ x ∷ ps)
      × ((m.store x).id ≡ id)

  found_id :
      (st : Store F) (q : JobQueue) (id : String) (x : ℕ) → find st q id ≡ some x → (st x).id ≡ id
  found_id st q id x e = elim (find_lem st q id) [
    | inl (missing, absent) ↦ ground arith
    | inr (p, found, member, same) ↦ ground arith
  ]

  put_IsFirst :
      (name id : String) (m : Manager F) (q : JobQueue) (x : ℕ) (ps : List ℕ)
      → queue_named name m.queues ≡ some q
      → (m.store x).id ≡ id
      → IsFirst name id (record m { queues = put_queue name (record q { jobs = x ∷ ps }) m.queues })
  put_IsFirst name id m q x ps named same =
      let q' : JobQueue = record q { jobs = x ∷ ps } in
      (q', x, ps, queue_named-put_queue name q q' m.queues named refl, refl, same)

  raise_in-IsFirst :
      (name id : String) (m m' : Manager F)
      → raise_in name id m ≡ (m', none)
      → IsFirst name id m' × (m'.store ≡ m.store)
  unfolding raise_in
  raise_in-IsFirst name id m m' e = elim (Option-cases (queue_named name m.queues)) [
    | inl missing ↦ ground arith
    | inr (q, named) ↦ elim (raise_lem m.store q id) [
      | inl (absent, raised) ↦ ground arith
      | inr (x, ps, found, raised, perm) ↦
          let m1 : Manager F = record m {
            queues = put_queue name (record q { jobs = x ∷ ps }) m.queues;
          } in
          let ran : raise_in name id m ≡ (m1, none) =
            rw (named, raise_in) (rw (raised, raise_in) refl) in
          let same : m1 ≡ m' = ap (λ (r : Manager F × Option Error). r.0) (sym ran ∙ e) in
          subst (λ (k : Manager F). IsFirst name id k × (k.store ≡ m.store)) same
            (put_IsFirst name id m q x ps named (found_id m.store q id x found), refl)
    ]
  ]

module _ {F : Type 0} (env : Env F) (q : (p : ℕ) → IsQuiet (env.hooks p)) where
  ready_lem :
      (fuel p : ℕ) (m m' : Manager F)
      → env.fuel ≡ suc (suc fuel)
      → mark_ready env p m ≡ some (m', none)
      → (m'.store p).status ≡ ready
  unfolding mark_ready mark_dirty
  ready_lem fuel p m m' enough e = ground (arith, change_lem env q fuel p ready (mark_dirty m) m')

  raised-IsFirst :
      (fuel p : ℕ) (m m' : Manager F) (r : Ran F)
      → env.fuel ≡ suc (suc fuel)
      → mark_ready env p m ≡ r
      → raise_after env p r ≡ some (m', none)
      → ((m'.store p).status ≡ ready) × IsFirst (m'.store p).queue_name (m'.store p).id m'
  raised-IsFirst fuel p m m' none enough e f = ground arith
  raised-IsFirst fuel p m m' (some (m1, some err)) enough e f = ground arith
  raised-IsFirst fuel p m m' (some (m1, none)) enough e f =
      let ran : raise_in (m1.store p).queue_name (m1.store p).id m1 ≡ (m', none) = ground arith in
      let (first, kept) = raise_in-IsFirst (m1.store p).queue_name (m1.store p).id m1 m' ran in
      let back : (m'.store p) ≡ m1.store p = ap (λ (st : Store F). st p) kept in
      (
        ap (λ (j : Job F). j.status) back ∙ ready_lem fuel p m m1 enough e,
        subst (λ (j : Job F). IsFirst j.queue_name j.id m') (sym back) first,
      )

  -- With hooks that leave the status and the follower of their job alone, and fuel two or more,
  -- `markStart` that reports no error leaves the job ready,
  -- and a job with its id at the head of the queue that it belongs to.
  pub mark_start-IsFirst :
      (fuel p : ℕ) (m m' : Manager F)
      → env.fuel ≡ suc (suc fuel)
      → mark_start env p m ≡ some (m', none)
      → ((m'.store p).status ≡ ready) × IsFirst (m'.store p).queue_name (m'.store p).id m'
  unfolding mark_start
  mark_start-IsFirst fuel p m m' enough e =
      raised-IsFirst fuel p m m' (mark_ready env p m) enough refl e
