-- ===== src/JobManager/Inform.antt =====
-- How reports reach the jobs (`handleJobProgressInfo` and `handleDeliveryDownloadInfo` of
-- src/lastore-daemon/job_manager.go).
use lastore_daemon.Base.{ℕ, true, false, Option, none, some, String, if◌then◌else◌}
use lastore_daemon.Base.Int.{pos, ltb_ℤ}
use lastore_daemon.Base.Float.{Float}
use lastore_daemon.System.{JobError, ProgressInfo, DeliveryInfo}
use lastore_daemon.Job.{update_delivery_info}
use lastore_daemon.Job.Update.{update_info}
use lastore_daemon.JobManager.{Manager, Env, put_job, mark_dirty, find_job_by_id}

-- The log of the original output is not modelled.
unfoldable pub handle_progress_info :
    (fl : Float) (marshal : JobError → Option String)
    → Env fl.Carrier
    → ℕ
    → ProgressInfo fl.Carrier
    → Manager fl.Carrier
    → Option (Manager fl.Carrier)
unfolding update_info mark_dirty find_job_by_id
handle_progress_info fl marshal env now info m = elim (find_job_by_id info.job_id m) [
  | none ↦ some m
  | some p ↦
      if info.only_log
      then some m
      else elim (update_info fl marshal env.fuel (env.hooks p) now info (m.store p)) [
        | none ↦ none
        | some (j, true) ↦ some (mark_dirty (record m { store = put_job p j m.store }))
        | some (j, false) ↦ some (record m { store = put_job p j m.store })
      ]
]

unfoldable pub handle_delivery_info :
    {F : Type 0} → (String → String) → DeliveryInfo → Manager F → Manager F
unfolding update_delivery_info find_job_by_id
handle_delivery_info lower info m = elim (find_job_by_id info.job_id m) [
  | none ↦ m
  | some p ↦ record m {
    store = put_job p (update_delivery_info lower info (m.store p)) m.store;
    limit_changing = if ltb_ℤ (pos 0) info.speed then false else m.limit_changing;
  }
]
