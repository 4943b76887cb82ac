-- ===== src/Job/Update.antt =====
-- A job takes in a progress report (`updateInfo` of src/lastore-daemon/job.go).
pub mod Reports
pub mod Returns
use lastore_daemon.Base.{
  ℕ, Bool, true, false, not, ◌&&◌, ◌||◌, Option, none, some, String, str_eq, if◌then◌else◌,
}
use lastore_daemon.Base.Int.{pos, int_eq}
use lastore_daemon.Base.Float.{Float}
use lastore_daemon.System.{
  Status, status_eq, running, failed, succeed, JobError, Error, job_error, not_found, not_support,
  exists_job, message, ProgressInfo,
}
use lastore_daemon.Job.{Job, SpeedMeter, build_progress, measure_speed, is_download_protocol_job}
use lastore_daemon.Job.Transition.{Hooks, Outcome, transition}

abbrev pub bool_eq : Bool → Bool → Bool
bool_eq true b = b
bool_eq false b = not b

-- `json.Marshal` of an error, which may fail, is a parameter.
unfoldable pub set_error : {F : Type 0} → (JobError → Option String) → JobError → Job F → Job F
set_error marshal e j = elim (marshal e) [ none ↦ j | some s ↦ record j { description = s } ]

module _ {F : Type 0} (marshal : JobError → Option String) where
  unfoldable pub take_text : ProgressInfo F → Job F × Bool → Job F × Bool
  unfolding set_error
  take_text info (j, changed) = elim info.error [
    | none ↦
        if str_eq info.description j.description
        then (j, changed)
        else (record j { description = info.description }, true)
    | some e ↦
        (let j' : Job F = set_error marshal e j in record j' { err_log_path = e.error_log }, true)
  ]

module _ {F : Type 0} where
  unfoldable pub take_cancelable : ProgressInfo F → Job F × Bool → Job F × Bool
  take_cancelable info (j, changed) =
      if bool_eq info.cancelable j.cancelable
      then (j, changed)
      else (record j { cancelable = info.cancelable }, true)

  unfoldable pub take_fatal : ProgressInfo F → Job F × Bool → Job F × Bool
  take_fatal info (j, changed) =
      (if info.fatal_error then record j { retry = pos 0 } else j, changed)

module _ (fl : Float) where
  open fl use {Carrier, lit, lt}

  unfoldable pub take_progress : ProgressInfo Carrier → Job Carrier × Bool → Job Carrier × Bool
  unfolding build_progress
  take_progress info (j, changed) =
      let new = build_progress fl info.progress j.range_begin j.range_end in
      if info.reset_progress
      then (record j { progress = lit 0 0 }, true)
      else if lt j.progress new
      then (record j { progress = new }, true)
      else (j, changed)

  unfoldable pub take_proto : Job Carrier × Bool → Job Carrier × Bool
  take_proto (j, changed) =
      if is_download_protocol_job j.job_type && not (str_eq j.proto "http")
      then (record j { proto = "http" }, true)
      else (j, changed)

  -- The download speed, which delivery reports give where there are any.
  unfoldable pub take_speed : ℕ → ProgressInfo Carrier → Job Carrier × Bool → Job Carrier × Bool
  unfolding take_proto
  take_speed now info (j0, changed0) =
      let (j, changed) = take_proto (j0, changed0) in
      let (meter, speed) = measure_speed fl now info.progress j.delivery_speed j.speed_meter in
      let j' : Job Carrier = record j { speed_meter = meter } in
      if j0.has_delivery_info
      then (j0, changed0)
      else if int_eq speed j.speed
      then (j', changed)
      else (record j' { speed = speed }, true)

  -- Everything up to the change of status. `realRunningHookFn` is not part of the result: it is
  -- called once when the report says that the job runs.
  unfoldable pub take_fields :
      (JobError → Option String) → ℕ → ProgressInfo Carrier → Job Carrier → Job Carrier × Bool
  unfolding take_text take_cancelable take_progress take_speed take_fatal
  take_fields marshal now info j = take_fatal info (
      take_speed now info
        (take_progress info (take_cancelable info (take_text marshal info (j, false)))))

module _ {F : Type 0} (marshal : JobError → Option String) (fuel : ℕ) (h : Hooks F) where
  -- A hook for `succeed` failed with this error.
  unfoldable pub fail_success : Error → Job F → Option (Job F × Bool)
  unfolding set_error
  fail_success (job_error e) j =
      let j' : Job F = set_error marshal e j in
      elim (transition fuel h (record j' { err_log_path = e.error_log }) failed) [
        | none ↦ none
        | some o ↦ some (let r : Job F = o.job in record r { cancelable = true }, true)
      ]
  fail_success _ j = elim (transition fuel h j failed) [
    | none ↦ none
    | some o ↦ some (o.job, false)
  ]

  unfoldable pub take_status : ProgressInfo F → Job F × Bool → Option (Job F × Bool)
  take_status info (j, changed) =
      if status_eq info.status j.status
      then some (j, changed)
      else elim (transition fuel h j info.status) [
        | none ↦ none
        | some o ↦ elim o.error [
          | none ↦ some (o.job, true)
          | some e ↦
              if status_eq info.status succeed then fail_success e o.job else some (o.job, false)
        ]
      ]

-- `updateInfo`: the job and the value that it returns.
unfoldable pub update_info :
    (fl : Float) (marshal : JobError → Option String) (fuel : ℕ) (h : Hooks fl.Carrier)
    → ℕ
    → ProgressInfo fl.Carrier
    → Job fl.Carrier
    → Option (Job fl.Carrier × Bool)
update_info fl marshal fuel h now info j =
    take_status marshal fuel h info (take_fields fl marshal now info j)
