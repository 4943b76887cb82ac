-- ===== src/JobManager/Dispatch.antt =====
-- How the manager moves jobs on (`dispatch`, `startJobsInQueue`, `addJob` and `removeJob` of
-- src/lastore-daemon/job_manager.go, and `StartSystemJob` of start_job.go).
use lastore_daemon.Base.{
  ℕ, Bool, true, false, List, [], ◌∷◌, ◌++◌, Option, none, some, String, str_eq, if◌then◌else◌,
}
use lastore_daemon.Base.Int.{pos, int_eq}
use lastore_daemon.System.{
  status_eq, running, failed, Error, job_error, not_found, exists_job, message, ok, err, JobError,
  download_job, prepare_dist_upgrade_job, install_job, dist_upgrade_job, remove_job,
  update_source_job, update_job, clean_job, fix_error_job, check_system_job, backup_job,
}
use lastore_daemon.Job.{Job, sub_retry_count}
use lastore_daemon.Job.Update.{set_error}
use lastore_daemon.JobQueue.{
  JobQueue, Store, add, remove, done_jobs, running_jobs, pending_jobs, system_change_queue,
}
use lastore_daemon.JobQueue.Sort.{Sorter}
use lastore_daemon.JobManager.{
  Manager, Env, Ran, download_queue, lock_queue, delay_lock_queue, queue_named, put_queue, put_job,
  mark_dirty, change_status, mark_start,
}

abbrev pub Strings : Type 0
Strings = List (String × String)

-- The requests to the package manager.
pub data SystemCall : Type 0 where
  download_packages download_source installs upgrades :
      (id : String) (packages : List String) (environ option : Strings) → SystemCall
  removes : (id : String) (packages : List String) (environ : Strings) → SystemCall
  updates_source : (id : String) (environ option : Strings) → SystemCall
  cleans backs_up : (id : String) → SystemCall
  fixes checks : (id first : String) (environ option : Strings) → SystemCall

abbrev pub first_or_empty : List String → String
first_or_empty [] = ""
first_or_empty (s ∷ ss) = s

-- The request for a job, by its type; none for an unknown type.
unfoldable pub call_of : {F : Type 0} → Job F → Option SystemCall
call_of j =
    let t = j.job_type in
    if str_eq t download_job
    then some (download_packages j.id j.packages j.environ j.option)
    else if str_eq t prepare_dist_upgrade_job
    then some (download_source j.id j.packages j.environ j.option)
    else if str_eq t install_job
    then some (installs j.id j.packages j.environ j.option)
    else if str_eq t dist_upgrade_job
    then some (upgrades j.id j.packages j.environ j.option)
    else if str_eq t remove_job
    then some (removes j.id j.packages j.environ)
    else if str_eq t update_source_job
    then some (updates_source j.id j.environ j.option)
    else if str_eq t update_job
    then some (installs j.id j.packages j.environ j.option)
    else if str_eq t clean_job
    then some (cleans j.id)
    else if str_eq t fix_error_job
    then some (fixes j.id (first_or_empty j.packages) j.environ j.option)
    else if str_eq t check_system_job
    then some (checks j.id (first_or_empty j.packages) j.environ j.option)
    else if str_eq t backup_job
    then some (backs_up j.id)
    else none

-- The rest of what the manager calls: the answers of the package manager, the export of a job on
-- the bus, `json.Marshal`, the hook before the count of retries of each job; `error_text` is the
-- JSON of an error that could not start a job.
pub record Outside (F : Type 0) : Type 0 where
  pub answer : SystemCall → Option Error
  pub export : String → Option Error
  pub not_use_dbus : Bool
  pub marshal : JobError → Option String
  pub retry_hook : ℕ → Option (Job F → Job F)
  pub start_error : Error → JobError

abbrev limit_keys : List String
limit_keys = "Acquire::http::Dl-Limit" ∷ "Acquire::delivery::Dl-Limit" ∷ []

abbrev option_value : String → Strings → Option String
option_value k [] = none
option_value k ((j, v) ∷ o) = if str_eq j k then some v else option_value k o

abbrev delete_option : String → Strings → Strings
delete_option k [] = []
delete_option k ((j, v) ∷ o) = if str_eq j k then delete_option k o else (j, v) ∷ delete_option k o

-- The speed limits of a job hold for the one that follows it.
unfoldable pub inherit_limits : List String → Strings → Strings → Strings
inherit_limits [] from to = to
inherit_limits (k ∷ ks) from to = inherit_limits ks from (elim (option_value k from) [
  | some v ↦ (k, v) ∷ delete_option k to
  | none ↦ delete_option k to
])

module _ {F : Type 0} where
  abbrev pub manager_of : Ran F → Option (Manager F)
  manager_of none = none
  manager_of (some (m, e)) = some m

  unfoldable pub done_everywhere : List JobQueue → Store F → List ℕ
  done_everywhere [] st = []
  done_everywhere (q ∷ qs) st = done_jobs st q ++ done_everywhere qs st

  -- `sendNotify` of a manager that has a function to notify
  unfoldable pub send_notify : Manager F → Manager F
  send_notify m = record m { changed = false }

module _ {F : Type 0} (env : Env F) (outside : Outside F) where
  abbrev pub request : ℕ → Ran F → Ran F
  request p none = none
  request p (some (m, some e)) = some (m, some e)
  request p (some (m, none)) = elim (call_of (m.store p)) [
    | none ↦ some (m, some (not_found (m.store p).job_type))
    | some call ↦ some (m, outside.answer call)
  ]

  -- `StartSystemJob`
  unfoldable pub start_system_job : ℕ → Manager F → Ran F
  unfolding call_of
  start_system_job p m =
      let j : Job F = m.store p in
      request p (
        change_status env p running
          (record m { store = put_job p (record j { description = "" }) m.store }))

  -- A job that could not be started: no retry after a `JobError`.
  unfoldable pub note_failure : ℕ → Error → Manager F → Manager F
  unfolding sub_retry_count
  note_failure p (job_error e) m =
      let j : Job F =
        set_error outside.marshal e (sub_retry_count (outside.retry_hook p) true (m.store p)) in
      record m { store = put_job p (record j { err_log_path = e.error_log }) m.store }
  note_failure p e m =
      if int_eq (m.store p).retry (pos 0)
      then record m {
        store = put_job p (set_error outside.marshal (outside.start_error e) (m.store p)) m.store;
      }
      else m

  abbrev pub fail_after : ℕ → Ran F → Option (Manager F)
  fail_after p none = none
  fail_after p (some (m, none)) = some m
  fail_after p (some (m, some e)) = manager_of (change_status env p failed (note_failure p e m))

  -- The body of the loop of `startJobsInQueue`.
  unfoldable pub start_one : ℕ → Manager F → Option (Manager F)
  unfolding sub_retry_count start_system_job note_failure
  start_one p m =
      let counted : Manager F = record m {
        store = put_job p (sub_retry_count (outside.retry_hook p) false (m.store p)) m.store;
      } in
      elim (if status_eq (m.store p).status failed
        then manager_of (mark_start env p counted)
        else some m) [ none ↦ none | some m' ↦ fail_after p (start_system_job p m') ]

  unfoldable pub start_all : List ℕ → Manager F → Option (Manager F)
  unfolding start_one
  start_all [] m = some m
  start_all (p ∷ ps) m = elim (start_one p m) [ none ↦ none | some m' ↦ start_all ps m' ]

  module _ (sorter : Sorter) where
    -- `startJobsInQueue` of the queue with a name; that queue is nil where the map has none, and to
    -- read it is a panic.
    unfoldable pub start_jobs_in_queue : String → Manager F → Option (Manager F)
    unfolding start_all
    start_jobs_in_queue name m =
        if outside.not_use_dbus then some m else elim (queue_named name m.queues) [
          | none ↦ none
          | some q ↦ start_all (pending_jobs sorter m.store q) m
        ]

    -- Whether a queue has a running job; a panic where the map has no such queue.
    unfoldable pub is_busy : String → Manager F → Option Bool
    is_busy name m = elim (queue_named name m.queues) [
      | none ↦ none
      | some q ↦ elim (running_jobs m.store q) [ [] ↦ some false | p ∷ ps ↦ some true ]
    ]

    -- Queues are looked at up to the first that is busy.
    unfoldable pub is_any_busy : List String → Manager F → Option Bool
    unfolding is_busy
    is_any_busy [] m = some false
    is_any_busy (name ∷ names) m = elim (is_busy name m) [
      | none ↦ none
      | some busy ↦ elim busy [ true ↦ some true | false ↦ is_any_busy names m ]
    ]

    -- `addJob` of a job that is not nil, once its queue is found and may take it.
    unfoldable pub add_to : JobQueue → ℕ → Manager F → Manager F × Option Error
    add_to q p m =
        let j : Job F = m.store p in
        elim (add sorter m.store q p) [
          | err exists_job ↦ (m, none)
          | err e ↦ (m, some e)
          | ok q' ↦
              let m' : Manager F = record m { queues = put_queue j.queue_name q' m.queues } in
              if outside.not_use_dbus then (mark_dirty m', none) else elim (outside.export j.id) [
                | some e ↦ (m', some e)
                | none ↦ (mark_dirty m', none)
              ]
        ]

    -- `addJob` of a job that is not nil
    unfoldable pub add_job : ℕ → Manager F → Ran F
    unfolding is_any_busy add_to
    add_job p m =
        let j : Job F = m.store p in
        elim (queue_named j.queue_name m.queues) [
          | none ↦ some (m, some (not_found j.queue_name))
          | some q ↦
              elim (if str_eq j.id update_source_job
                then is_any_busy (download_queue ∷ delay_lock_queue ∷ lock_queue ∷ []) m
                else some false) [
                  | none ↦ none
                  | some busy ↦ some (
                      if busy
                      then (m, some (message "download or install running, not need check update"))
                      else add_to q p m)
                ]
        ]

    -- `removeJob`
    unfoldable pub remove_job_in : String → String → Manager F → Manager F × Option Error
    remove_job_in id name m = elim (queue_named name m.queues) [
      | none ↦ (m, some (not_found name))
      | some q ↦ elim (remove sorter m.store q id) [
        | err e ↦ (m, some e)
        | ok (p, q') ↦ (mark_dirty (record m { queues = put_queue name q' m.queues }), none)
      ]
    ]

    -- The body of the loop over the jobs that are done: such a job is taken out of its queue, and the
    -- job that follows it is put into its own.
    unfoldable pub replace_done : ℕ → Manager F → Option (Manager F)
    unfolding remove_job_in add_job inherit_limits
    replace_done p m0 =
        let j : Job F = m0.store p in
        let m = (remove_job_in j.id j.queue_name m0).0 in
        elim j.next [
          | none ↦ some m
          | some n ↦
              let next : Job F = m.store n in
              let next' : Job F = record next {
                option = inherit_limits limit_keys j.option next.option;
              } in
              elim (add_job n (record m { store = put_job n next' m.store })) [
                | none ↦ none
                | some (m', e) ↦ manager_of (mark_start env n m')
              ]
        ]

    unfoldable pub replace_all : List ℕ → Manager F → Option (Manager F)
    unfolding replace_done
    replace_all [] m = some m
    replace_all (p ∷ ps) m = elim (replace_done p m) [ none ↦ none | some m' ↦ replace_all ps m' ]

    abbrev pub then_start : String → Option (Manager F) → Option (Manager F)
    then_start name none = none
    then_start name (some m) = start_jobs_in_queue name m

    abbrev pub unless_busy : Option Bool → Manager F → Option (Manager F)
    unless_busy none m = none
    unless_busy (some true) m = some m
    unless_busy (some false) m = start_jobs_in_queue system_change_queue m

    -- The jobs of the queues are started, those that change the system if the lock queue is idle.
    unfoldable pub start_queues : Manager F → Option (Manager F)
    unfolding start_jobs_in_queue is_busy
    start_queues m =
        elim (then_start download_queue
          (then_start delay_lock_queue (start_jobs_in_queue lock_queue m))) [
            | none ↦ none
            | some m' ↦ unless_busy (is_busy lock_queue m') m'
          ]

    -- `dispatch`
    unfoldable pub dispatch : Manager F → Option (Manager F)
    unfolding replace_all send_notify start_queues done_everywhere
    dispatch m = elim (replace_all (done_everywhere m.queues m.store) m) [
      | none ↦ none
      | some m1 ↦ elim (start_queues (send_notify m1)) [
        | none ↦ none
        | some m2 ↦ some (send_notify m2)
      ]
    ]
