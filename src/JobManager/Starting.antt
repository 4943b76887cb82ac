-- ===== src/JobManager/Starting.antt =====
-- What starting one job does when nothing that the manager calls objects (the body of the loop of
-- `startJobsInQueue`, src/lastore-daemon/job_manager.go).
use lastore_daemon.Base.{
  ℕ, suc, Bool, true, false, ◌||◌, ◌&&◌, List, [], ◌∷◌, Option, none, some, String, str_eq, ◌≡◌,
  refl, ap, ◌∙◌, sym, subst, arith, if◌then◌else◌, ◌==◌, inl, inr, ◌⊎◌, Option-cases, any,
}
use lastore_daemon.System.{
  Status, status_eq, ready, running, failed, download_job, prepare_dist_upgrade_job, install_job,
  dist_upgrade_job, remove_job, update_source_job, update_job, clean_job, fix_error_job,
  check_system_job, backup_job,
}
use lastore_daemon.Job.{Job, sub_retry_count}
use lastore_daemon.Job.Transition.{
  Hooks, transition, transition_once, valid_transition, run_hook, is_some,
}
use lastore_daemon.Job.Transition.Edges.{IsQuiet, entered, transition_settles}
use lastore_daemon.JobQueue.{is_startable}
use lastore_daemon.JobManager.{
  Manager, Env, change_status, mark_ready, mark_start, mark_dirty, raise_in, raise_after, put_job,
}
use lastore_daemon.JobManager.Dispatch.{
  Outside, SystemCall, first_or_empty, download_packages, download_source, installs, upgrades,
  removes, updates_source, cleans, backs_up, fixes, checks, call_of, start_system_job, start_one,
  manager_of, fail_after, request,
}

-- Hooks that report no error and leave the type of the job alone.
pub record IsCalm {F : Type 0} (h : Hooks F) : Type 0 where
  pub pre_error : (s : Status) (j : Job F) → (run_hook (h.pre s) j).1 ≡ none
  pub after_error : (s : Status) (j : Job F) → (run_hook (h.after s) j).1 ≡ none
  pub pre_type : (s : Status) (j : Job F) → (run_hook (h.pre s) j).0.job_type ≡ j.job_type
  pub after_type : (s : Status) (j : Job F) → (run_hook (h.after s) j).0.job_type ≡ j.job_type

module _ {F : Type 0} (h : Hooks F) (q : IsQuiet h) (c : IsCalm h) where
  -- What a transition that succeeds gives.
  abbrev Reaches : Job F → Status → Type 0
  Reaches j to =
      ((transition_once h j to).0.error ≡ none)
      × ((transition_once h j to).1 ≡ false)
      × ((transition_once h j to).0.job.status ≡ to)
      × ((transition_once h j to).0.job.job_type ≡ j.job_type)

  once_running : (j : Job F) → j.status ≡ ready → Reaches j running
  unfolding transition_once valid_transition
  once_running j e = ground (
    arith,
    e,
    q.after_status running (entered h j running),
    c.pre_error running j,
    c.after_error running (entered h j running),
    c.pre_type running j,
    c.after_type running (entered h j running),
  )

  once_ready : (j : Job F) → j.status ≡ failed → Reaches j ready
  unfolding transition_once valid_transition
  once_ready j e = ground (
    arith,
    e,
    q.after_status ready (entered h j ready),
    c.pre_error ready j,
    c.after_error ready (entered h j ready),
    c.pre_type ready j,
    c.after_type ready (entered h j ready),
  )

  transition-Reaches :
      (fuel : ℕ) (j : Job F) (to : Status)
      → Reaches j to
      → transition (suc (suc fuel)) h j to ≡ some (transition_once h j to).0
  transition-Reaches fuel j to (_, last, _, _) =
      transition_settles h q fuel j to ∙ rw (last, if◌then◌else◌) refl

-- A hook before the count of retries leaves status and type of its job alone.
abbrev pub IsRetryHook : {F : Type 0} → Option (Job F → Job F) → Type 0
IsRetryHook {F} o =
    (f : Job F → Job F)
    → o ≡ some f
    → (j : Job F) → ((f j).status ≡ j.status) × ((f j).job_type ≡ j.job_type)

-- A job has a status, its type is as before, and the other jobs are as before.
abbrev pub Moved : {F : Type 0} → ℕ → Status → Manager F → Manager F → Type 0
Moved p to m m' =
    ((m'.store p).status ≡ to)
    × ((m'.store p).job_type ≡ (m.store p).job_type)
    × ((x : ℕ) → (x == p) ≡ false → m'.store x ≡ m.store x)

same_job : (p : ℕ) → (p == p) ≡ true
same_job p = ground arith

put_job_lem : {F : Type 0} (p : ℕ) (j : Job F) (st : ℕ → Job F) → put_job p j st p ≡ j
put_job_lem p j st = rw (same_job p, if◌then◌else◌) refl

put_job-other :
    {F : Type 0} (p : ℕ) (j : Job F) (st : ℕ → Job F) (x : ℕ)
    → (x == p) ≡ false
    → put_job p j st x ≡ st x
put_job-other p j st x e = rw (e, if◌then◌else◌) refl

raise_in-store :
    {F : Type 0} (name id : String) (m : Manager F) → (raise_in name id m).0.store ≡ m.store
unfolding raise_in
raise_in-store name id m = ground arith

-- The types for which `StartSystemJob` has a request.
abbrev pub has_request : String → Bool
has_request t = any (str_eq t) (
    download_job ∷ prepare_dist_upgrade_job ∷ install_job ∷ dist_upgrade_job ∷ remove_job
    ∷ update_source_job ∷ update_job ∷ clean_job ∷ fix_error_job ∷ check_system_job ∷ backup_job
    ∷ [])

-- A chain of tests as a list.
abbrev chain : List (Bool × SystemCall) → Option SystemCall
chain [] = none
chain ((b, call) ∷ rest) = if b then some call else chain rest

chain-any : (l : List (Bool × SystemCall)) → is_some (chain l) ≡ any (λ x. x.0) l
chain-any [] = refl
chain-any ((true, call) ∷ rest) = refl
chain-any ((false, call) ∷ rest) = chain-any rest

call_of-has_request : {F : Type 0} (j : Job F) → is_some (call_of j) ≡ has_request j.job_type
unfolding call_of
call_of-has_request j =
    let t = j.job_type in
    chain-any (
      (str_eq t download_job, download_packages j.id j.packages j.environ j.option)
      ∷ (str_eq t prepare_dist_upgrade_job, download_source j.id j.packages j.environ j.option)
      ∷ (str_eq t install_job, installs j.id j.packages j.environ j.option)
      ∷ (str_eq t dist_upgrade_job, upgrades j.id j.packages j.environ j.option)
      ∷ (str_eq t remove_job, removes j.id j.packages j.environ)
      ∷ (str_eq t update_source_job, updates_source j.id j.environ j.option)
      ∷ (str_eq t update_job, installs j.id j.packages j.environ j.option)
      ∷ (str_eq t clean_job, cleans j.id)
      ∷ (str_eq t fix_error_job, fixes j.id (first_or_empty j.packages) j.environ j.option)
      ∷ (str_eq t check_system_job, checks j.id (first_or_empty j.packages) j.environ j.option)
      ∷ (str_eq t backup_job, backs_up j.id)
      ∷ [])

module _ {F : Type 0} (env : Env F) (q : (p : ℕ) → IsQuiet (env.hooks p))
    (c : (p : ℕ) → IsCalm (env.hooks p)) (fuel : ℕ) (enough : env.fuel ≡ suc (suc fuel)) where
  change_status-Moved :
      (p : ℕ) (to : Status) (m : Manager F)
      → Reaches (env.hooks p) (q p) (c p) (m.store p) to
      → (m' : Manager F) × (change_status env p to m ≡ some (m', none)) × Moved p to m m'
  unfolding change_status
  change_status-Moved p to m r =
      let o = (transition_once (env.hooks p) (m.store p) to).0 in
      let (no_error, _, status, type) = r in
      let e : transition env.fuel (env.hooks p) (m.store p) to ≡ some o =
        subst (λ n. transition n (env.hooks p) (m.store p) to ≡ some o) (sym enough)
          (transition-Reaches (env.hooks p) (q p) (c p) fuel (m.store p) to r) in
      let m' : Manager F = record m { store = put_job p o.job m.store } in
      let at = put_job_lem p o.job m.store in
      (
        m',
        rw (e, change_status) (ap (λ x. some (m', x)) no_error),
        (
          ap (λ j. j.status) at ∙ status,
          ap (λ j. j.job_type) at ∙ type,
          put_job-other p o.job m.store,
        ),
      )

  mark_start-Moved :
      (p : ℕ) (m : Manager F)
      → (m.store p).status ≡ failed
      → (m' : Manager F) × (manager_of (mark_start env p m) ≡ some m') × Moved p ready m m'
  unfolding mark_start mark_ready mark_dirty
  mark_start-Moved p m e =
      let (m1, ran, moved) =
        change_status-Moved p ready (mark_dirty m)
          (once_ready (env.hooks p) (q p) (c p) (m.store p) e) in
      let name = (m1.store p).queue_name in
      let id = (m1.store p).id in
      let not_ready : status_eq (m.store p).status ready ≡ false = ap (λ s. status_eq s ready) e in
      let marked : mark_ready env p m ≡ some (m1, none) = rw (not_ready, mark_ready) ran in
      (
        (raise_in name id m1).0,
        ap (λ r. manager_of (raise_after env p r)) marked,
        subst (λ st. Moved p ready m (record m1 { store = st })) (sym (raise_in-store name id m1))
            moved,
      )

  module _ (outside : Outside F) (agrees : (call : SystemCall) → outside.answer call ≡ none)
      (retries : (p : ℕ) → IsRetryHook (outside.retry_hook p)) where
    asked :
        (p : ℕ) (m : Manager F)
        → has_request (m.store p).job_type ≡ true
        → request env outside p (some (m, none)) ≡ some (m, none)
    asked p m k = elim (Option-cases (call_of (m.store p))) [
      | inl e ↦ absurd (ground (arith, sym (call_of-has_request (m.store p)) ∙ ap is_some (e), k))
      | inr (call, e) ↦ rw (e, request) (ap (λ r. some (m, r)) (agrees call))
    ]

    start_system_job-Moved :
        (p : ℕ) (m : Manager F)
        → (m.store p).status ≡ ready
        → has_request (m.store p).job_type ≡ true
        → (m' : Manager F) × (start_system_job env outside p m ≡ some (m', none))
          × Moved p running m m'
    unfolding start_system_job
    start_system_job-Moved p m e k =
        let j : Job F = record (m.store p) { description = "" } in
        let m0 : Manager F = record m { store = put_job p j m.store } in
        let at = put_job_lem p j m.store in
        let (m1, ran, (status, type, others)) =
          change_status-Moved p running m0
            (once_running (env.hooks p) (q p) (c p) (m0.store p) (ap (λ j. j.status) at ∙ e)) in
        let same_type = type ∙ ap (λ j. j.job_type) at in
        (
          m1,
          ap (request env outside p) ran ∙ asked p m1 (ap has_request same_type ∙ k),
          (status, same_type, λ x n. others x n ∙ put_job-other p j m.store x n),
        )

    startable_status :
        (s : Status) (b : Bool)
        → (status_eq s ready || status_eq s failed && b) ≡ true
        → (s ≡ ready) ⊎ (s ≡ failed)
    startable_status s b e = ground (arith, e)

    -- The count of retries changes neither status nor type.
    counted :
        (p : ℕ) (j : Job F)
        → ((sub_retry_count (outside.retry_hook p) false j).status ≡ j.status)
          × ((sub_retry_count (outside.retry_hook p) false j).job_type ≡ j.job_type)
    unfolding sub_retry_count
    counted p j = elim (Option-cases (outside.retry_hook p)) [
      | inl e ↦ rw (e, sub_retry_count) (refl, refl)
      | inr (f, e) ↦ rw (e, sub_retry_count) (retries p f e j)
    ]

    pub start_one-Moved :
        (p : ℕ) (m : Manager F)
        → is_startable m.store p ≡ true
        → has_request (m.store p).job_type ≡ true
        → (m' : Manager F) × (start_one env outside p m ≡ some m') × Moved p running m m'
    unfolding start_one is_startable sub_retry_count
    start_one-Moved p m e k = elim (startable_status (m.store p).status _ e) [
      | inl r ↦
          let (m1, ran, moved) = start_system_job-Moved p m r k in
          let waits : status_eq (m.store p).status failed ≡ false =
            ap (λ s. status_eq s failed) r in
          (m1, rw (waits, start_one) (ap (fail_after env outside p) ran), moved)
      | inr r ↦
          let j : Job F = sub_retry_count (outside.retry_hook p) false (m.store p) in
          let m0 : Manager F = record m { store = put_job p j m.store } in
          let at = put_job_lem p j m.store in
          let (status0, type0) = counted p (m.store p) in
          let (m1, ran1, (status1, type1, others1)) =
            mark_start-Moved p m0 (ap (λ j. j.status) at ∙ status0 ∙ r) in
          let same1 = type1 ∙ ap (λ j. j.job_type) at ∙ type0 in
          let (m2, ran2, (status2, type2, others2)) =
            start_system_job-Moved p m1 status1 (ap has_request same1 ∙ k) in
          let again : status_eq (m.store p).status failed ≡ true = ap (λ s. status_eq s failed) r in
          (
            m2,
            rw (again, start_one)
                (ap
                    (λ o. elim o [
                      | none ↦ none
                      | some m' ↦ fail_after env outside p (start_system_job env outside p m')
                    ])
                    ran1
                  ∙ ap (fail_after env outside p) ran2),
            (
              status2,
              type2 ∙ same1,
              λ x n. others2 x n ∙ others1 x n ∙ put_job-other p j m.store x n,
            ),
          )
    ]
