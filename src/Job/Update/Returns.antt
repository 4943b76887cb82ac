-- ===== src/Job/Update/Returns.antt =====
-- What `updateInfo` returns and leaves behind.
use lastore_daemon.Base.{ℕ, suc, Bool, true, false, Option, some, ◌≡◌, ◌∙◌, arith, String}
use lastore_daemon.Base.Float.{Float}
use lastore_daemon.System.{
  Status, status_eq, running, failed, succeed, JobError, Error, job_error, ProgressInfo,
}
use lastore_daemon.Job.{Job}
use lastore_daemon.Job.Transition.{Hooks, run_hook, transition_once, valid_transition}
use lastore_daemon.Job.Transition.Edges.{settled, entered}
use lastore_daemon.Job.Transition.Signals.{transition_refused}
use lastore_daemon.Job.Update.{take_fields, take_status, update_info}
use lastore_daemon.Job.Update.Reports.{
  LeavesJob, leaves-IsQuiet, Advances, fields_advance, status_result, status_lem, fail_result,
  errored, set_error_progress,
}

abbrev pub is_job_error : Error → Bool
is_job_error (job_error e) = true
is_job_error _ = false

module _ {F : Type 0} (marshal : JobError → Option String) where
  unreported :
      (fuel : ℕ) (h : Hooks F) (info : ProgressInfo F) (s : Job F × Bool) {from : Status}
      → s.0.status ≡ from
      → status_eq info.status from ≡ false
      → valid_transition from info.status ≡ false
      → status_eq info.status succeed ≡ false
      → take_status marshal (suc fuel) h info s ≡ some (s.0, false)
  unfolding take_status
  unreported fuel h info (j, changed) kept differs refused other =
      ground (arith, transition_refused fuel h j info.status)

  module _ {h : Hooks F} (q : LeavesJob h) where
    fails_once :
        (j : Job F)
        → j.status ≡ running
        → (settled h (leaves-IsQuiet q) j failed).job.status ≡ failed
    unfolding transition_once valid_transition
    fails_once j e = ground (arith, (leaves-IsQuiet q).after_status failed (entered h j failed))

    stopped :
        (j : Job F) (e : Error)
        → j.status ≡ running
        → (run_hook (h.pre succeed) j).1 ≡ some e
        → ((settled h (leaves-IsQuiet q) j succeed).job.status ≡ running)
          × ((settled h (leaves-IsQuiet q) j succeed).error ≡ some e)
    unfolding transition_once valid_transition
    stopped j e from err = ground (arith, (leaves-IsQuiet q).pre_status succeed j)

    fail_result_lem :
        (e : Error) (j : Job F)
        → j.status ≡ running
        → ((fail_result marshal q e j).0.status ≡ failed)
          × ((fail_result marshal q e j).1 ≡ is_job_error e)
    fail_result_lem (job_error e) j from =
        ground (arith, set_error_progress marshal q e j, fails_once (errored marshal q e j))
    fail_result_lem _ j from = ground (arith, fails_once j)

    success_fails :
        (info : ProgressInfo F) (s : Job F × Bool) (e : Error)
        → info.status ≡ succeed
        → s.0.status ≡ running
        → (run_hook (h.pre succeed) s.0).1 ≡ some e
        → ((status_result marshal q info s).0.status ≡ failed)
          × ((status_result marshal q info s).1 ≡ is_job_error e)
    success_fails info (j, changed) e to from err = ground (
      arith,
      stopped j e from err,
      fail_result_lem e (settled h (leaves-IsQuiet q) j succeed).job,
    )

module _ (fl : Float) (marshal : JobError → Option String) where
  open fl use {Carrier}

  -- With hooks that leave the job alone, `updateInfo` returns for every report and every job, and
  -- the progress of the job is reset if the report asks for it; else it stays, or grows to the
  -- scaled value of the report.
  pub update_info-Advances :
      (fuel now : ℕ) (h : Hooks Carrier)
      → LeavesJob h
      → (info : ProgressInfo Carrier) (j : Job Carrier)
      → (r : Job Carrier × Bool) × (update_info fl marshal (suc (suc fuel)) h now info j ≡ some r)
        × Advances fl marshal info j r.0
  unfolding update_info
  update_info-Advances fuel now h q info j =
      let s : Job Carrier × Bool = take_fields fl marshal now info j in
      let (runs, same) = status_lem marshal q fuel info s in
      (
        status_result marshal q info s,
        runs,
        ground (arith, same, fields_advance fl marshal now info j),
      )

  -- A report with a status other than `succeed` that is not the job's own, and that it cannot go
  -- to, is answered `false`, although all its other fields have been taken in.
  pub update_info_unreported :
      (fuel now : ℕ) (h : Hooks Carrier) (info : ProgressInfo Carrier) (j : Job Carrier)
      → status_eq info.status j.status ≡ false
      → valid_transition j.status info.status ≡ false
      → status_eq info.status succeed ≡ false
      → update_info fl marshal (suc fuel) h now info j
        ≡ some ((take_fields fl marshal now info j).0, false)
  unfolding update_info
  update_info_unreported fuel now h info j differs refused other =
      unreported marshal fuel h info (take_fields fl marshal now info j) status_kept differs refused
        other
    where
      status_kept : (take_fields fl marshal now info j).0.status ≡ j.status
      status_kept = (fields_advance fl marshal now info j).1

  -- With hooks that leave the job alone, a hook that fails before `succeed` turns a running job
  -- into a failed one. The report counts as a change exactly if the hook gave a `JobError`.
  pub update_info_success_fails :
      (fuel now : ℕ) (h : Hooks Carrier)
      → LeavesJob h
      → (info : ProgressInfo Carrier) (j : Job Carrier) (e : Error) → info.status ≡ succeed
      → j.status ≡ running
      → (run_hook (h.pre succeed) (take_fields fl marshal now info j).0).1 ≡ some e
      → (r : Job Carrier × Bool) × (update_info fl marshal (suc (suc fuel)) h now info j ≡ some r)
        × (r.0.status ≡ failed)
        × (r.1 ≡ is_job_error e)
  unfolding update_info
  update_info_success_fails fuel now h q info j e to from err =
      let s : Job Carrier × Bool = take_fields fl marshal now info j in
      let kept = (fields_advance fl marshal now info j).1 in
      (
        status_result marshal q info s,
        (status_lem marshal q fuel info s).0,
        (success_fails marshal q info s e to (kept ∙ from) err).0,
        (success_fails marshal q info s e to (kept ∙ from) err).1,
      )
