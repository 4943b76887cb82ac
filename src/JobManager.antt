-- ===== src/JobManager.antt =====
-- The manager of the jobs (src/lastore-daemon/job_manager.go): its state, and the operations on one
-- of its jobs.
pub mod Dispatch
pub mod Create
pub mod Kinds
pub mod Inform
pub mod Search
pub mod Control
pub mod Starting
pub mod Started
pub mod Framed
pub mod Waiting
pub mod Chains
pub mod Examples
use lastore_daemon.Base.{
  ℕ, suc, Bool, true, false, not, ◌&&◌, ◌||◌, List, [], ◌∷◌, ◌++◌, Option, none, some, String,
  str_eq, ◌==◌, if◌then◌else◌,
}
use lastore_daemon.Base.Int.{pos, ltb_ℤ}
use lastore_daemon.Base.Float.{Float}
use lastore_daemon.System.{
  Status, status_eq, ready, running, failed, paused, end, Error, not_found, Result, ok, err,
  ProgressInfo, DeliveryInfo, JobError,
}
use lastore_daemon.Job.{Job, update_delivery_info}
use lastore_daemon.Job.Transition.{Hooks, Outcome, transition, valid_transition}
use lastore_daemon.Job.Update.{update_info}
use lastore_daemon.JobQueue.{JobQueue, Store, new_queue, find, raise, remove, system_change_queue}
use lastore_daemon.JobQueue.Sort.{Sorter}

abbrev pub download_queue : String
download_queue = "download"

abbrev pub lock_queue : String
lock_queue = "lock"

abbrev pub delay_lock_queue : String
delay_lock_queue = "delayLock"

-- `JobManager` with the store of the jobs, the number of the pointers given out, and the counter of
-- `genJobId`. A loop over the map `queues` meets them in the order of the list, which is any order.
-- The locks are not modelled.
pub record Manager (F : Type 0) : Type 0 where
  pub store : Store F
  pub num_jobs : ℕ
  pub queues : List JobQueue
  pub changed : Bool
  pub limit_changing : Bool
  pub id_count : ℕ

-- What the manager calls: the hooks of each job, and `Abort` and `AbortWithFailed` of the package
-- manager. The hooks of a job change no other job.
pub record Env (F : Type 0) : Type 0 where
  pub fuel : ℕ
  pub hooks : ℕ → Hooks F
  pub abort : String → Option Error
  pub abort_with_failed : String → Option Error

-- An operation's result: the manager and the error; `none` if it does not return, a panic included.
abbrev pub Ran : Type 0 → Type 0
Ran F = Option (Manager F × Option Error)

-- The four queues of `NewJobManager`.
unfoldable pub new_queues : List JobQueue
unfolding new_queue
new_queues =
    new_queue download_queue 4
    ∷ new_queue system_change_queue 1
    ∷ new_queue lock_queue 1
    ∷ new_queue delay_lock_queue 1
    ∷ []

unfoldable pub queue_named : String → List JobQueue → Option JobQueue
queue_named name [] = none
queue_named name (q ∷ qs) = if str_eq q.name name then some q else queue_named name qs

-- Writing a queue back where the one of that name stands.
unfoldable pub put_queue : String → JobQueue → List JobQueue → List JobQueue
put_queue name q' [] = []
put_queue name q' (q ∷ qs) = if str_eq q.name name then q' ∷ qs else q ∷ put_queue name q' qs

module _ {F : Type 0} where
  abbrev pub put_job : ℕ → Job F → Store F → Store F
  put_job p j st x = if x == p then j else st x

  unfoldable pub mark_dirty : Manager F → Manager F
  mark_dirty m = record m { changed = true }

  unfoldable pub find_in_queues : Store F → String → List JobQueue → Option ℕ
  find_in_queues st id [] = none
  find_in_queues st id (q ∷ qs) = elim (find st q id) [
    | some p ↦ some p
    | none ↦ find_in_queues st id qs
  ]

  -- `findJobById`
  unfoldable pub find_job_by_id : String → Manager F → Option ℕ
  unfolding find_in_queues
  find_job_by_id id m = find_in_queues m.store id m.queues

  -- `queue.Raise` of the queue with a name.
  unfoldable pub raise_in : String → String → Manager F → Manager F × Option Error
  unfolding queue_named put_queue
  raise_in name id m = elim (queue_named name m.queues) [
    | none ↦ (m, some (not_found name))
    | some q ↦ elim (raise m.store q id) [
      | err e ↦ (m, some e)
      | ok q' ↦ (record m { queues = put_queue name q' m.queues }, none)
    ]
  ]

module _ {F : Type 0} (env : Env F) where
  -- `TransitionJobState` of a job of the store.
  unfoldable pub change_status : ℕ → Status → Manager F → Ran F
  change_status p to m = elim (transition env.fuel (env.hooks p) (m.store p) to) [
    | none ↦ none
    | some o ↦ some (record m { store = put_job p o.job m.store }, o.error)
  ]

  unfoldable pub mark_ready : ℕ → Manager F → Ran F
  unfolding mark_dirty change_status
  mark_ready p m =
      if status_eq (m.store p).status ready
      then some (mark_dirty m, none)
      else change_status p ready (mark_dirty m)

  abbrev raise_after : ℕ → Ran F → Ran F
  raise_after p none = none
  raise_after p (some (m, some e)) = some (m, some e)
  raise_after p (some (m, none)) = some (raise_in (m.store p).queue_name (m.store p).id m)

  -- `markStart`
  unfoldable pub mark_start : ℕ → Manager F → Ran F
  unfolding mark_ready raise_in
  mark_start p m = raise_after p (mark_ready p m)

  -- `MarkStart`
  unfoldable pub start_job : String → Manager F → Ran F
  unfolding find_job_by_id mark_start
  start_job id m = elim (find_job_by_id id m) [
    | none ↦ some (m, some (not_found id))
    | some p ↦ mark_start p m
  ]

  -- `pauseJob`
  unfoldable pub pause_found : ℕ → Manager F → Ran F
  unfolding change_status
  pause_found p m =
      if status_eq (m.store p).status paused
      then some (m, none)
      else if status_eq (m.store p).status running
      then elim (env.abort (m.store p).id) [
        | some e ↦ some (m, some e)
        | none ↦ change_status p paused m
      ]
      else change_status p paused m

  -- `PauseJob`
  unfoldable pub pause_job : String → Manager F → Ran F
  unfolding pause_found find_job_by_id
  pause_job id m = elim (find_job_by_id id m) [
    | none ↦ some (m, some (not_found id))
    | some p ↦ pause_found p m
  ]

  -- The end of `CleanJob`: the job is not followed by another if it can end.
  unfoldable pub end_job : ℕ → Manager F → Ran F
  unfolding change_status
  end_job p m =
      let j : Job F = m.store p in
      let cut : Job F = if valid_transition j.status end then record j { next = none } else j in
      change_status p end (record m { store = put_job p cut m.store })

  abbrev end_after : ℕ → Ran F → Ran F
  end_after p none = none
  end_after p (some (m, some e)) = some (m, some e)
  end_after p (some (m, none)) = end_job p m

  -- `CleanJob`
  unfoldable pub clean_job : String → Manager F → Ran F
  unfolding pause_found end_job find_job_by_id
  clean_job id m = elim (find_job_by_id id m) [
    | none ↦ some (m, some (not_found id))
    | some p ↦
        if (m.store p).cancelable && status_eq (m.store p).status running
        then end_after p (pause_found p m)
        else end_job p m
  ]

  -- `ForceAbortAndRetry`; `DownloadLimitOnChanging` is set unless the abort fails.
  unfoldable pub force_abort_and_retry : ℕ → Manager F → Manager F × Option Error
  force_abort_and_retry p m =
      let j : Job F = m.store p in
      let again : Job F = if ltb_ℤ j.retry (pos 1) then record j { retry = pos 1 } else j in
      let retried : Manager F = record m { store = put_job p again m.store } in
      if status_eq j.status running
      then elim (env.abort_with_failed j.id) [
        | some e ↦ (retried, some e)
        | none ↦ (record retried { limit_changing = true }, none)
      ]
      else if status_eq j.status failed
      then (record retried { limit_changing = true }, none)
      else (record m { limit_changing = true }, none)
