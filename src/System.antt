-- ===== src/System.antt =====
-- The vocabulary of the package `system`: job states, job types, errors and progress reports
-- (src/internal/system/system.go).
use lastore_daemon.Base.{Bool, true, false, List, Option, String, str_eq}
use lastore_daemon.Base.Int.{ℤ}

-- `Status` is a string in the source. `other` is any string but the six constants, such as the
-- empty string of a report that sets no status.
pub data Status : Type 0 where
  ready running failed succeed paused end : Status
  other : String → Status

abbrev pub status_eq : Status → Status → Bool
status_eq ready ready = true
status_eq running running = true
status_eq failed failed = true
status_eq succeed succeed = true
status_eq paused paused = true
status_eq end end = true
status_eq (other s) (other t) = str_eq s t
status_eq _ _ = false

abbrev pub download_job : String
download_job = "download"

abbrev pub install_job : String
install_job = "install"

abbrev pub only_install_job : String
only_install_job = "only_install"

abbrev pub remove_job : String
remove_job = "remove"

abbrev pub update_job : String
update_job = "update"

abbrev pub dist_upgrade_job : String
dist_upgrade_job = "dist_upgrade"

abbrev pub prepare_dist_upgrade_job : String
prepare_dist_upgrade_job = "prepare_dist_upgrade"

abbrev pub update_source_job : String
update_source_job = "update_source"

abbrev pub clean_job : String
clean_job = "clean"

abbrev pub fix_error_job : String
fix_error_job = "fix_error"

abbrev pub check_system_job : String
check_system_job = "check_system"

abbrev pub prepare_system_upgrade_job : String
prepare_system_upgrade_job = "prepare_system_upgrade"

abbrev pub prepare_appstore_upgrade_job : String
prepare_appstore_upgrade_job = "prepare_appstore_upgrade"

abbrev pub prepare_security_upgrade_job : String
prepare_security_upgrade_job = "prepare_security_upgrade"

abbrev pub prepare_unknown_upgrade_job : String
prepare_unknown_upgrade_job = "prepare_unknown_upgrade"

abbrev pub system_upgrade_job : String
system_upgrade_job = "system_upgrade"

abbrev pub appstore_upgrade_job : String
appstore_upgrade_job = "appstore_upgrade"

abbrev pub security_upgrade_job : String
security_upgrade_job = "security_upgrade"

abbrev pub unknown_upgrade_job : String
unknown_upgrade_job = "unknown_upgrade"

abbrev pub other_upgrade_job : String
other_upgrade_job = "other_system_update"

abbrev pub append_upgrade_job : String
append_upgrade_job = "append_upgrade"

abbrev pub backup_job : String
backup_job = "backup"

abbrev pub incremental_download_job : String
incremental_download_job = "incremental_download"

pub record JobError : Type 0 where
  pub err_type : String
  pub err_detail : String
  pub is_check_error : Bool
  pub error_log : List String

-- Go's `error`, as far as the code tells errors apart: `errors.As` asks for a `JobError`, and
-- `Add` reports a job that is there already.
pub data Error : Type 0 where
  job_error : JobError → Error
  not_found : String → Error
  not_support : Error
  exists_job : Error
  message : String → Error

-- A value with a Go `error` beside it that is nil, or the error.
pub data Result {ℓ} (A : Type ℓ) : Type ℓ where
  ok : A → Result A
  err : Error → Result A

pub record ProgressInfo (F : Type 0) : Type 0 where
  pub job_id : String
  pub progress : F
  pub reset_progress : Bool
  pub description : String
  pub status : Status
  pub cancelable : Bool
  pub error : Option JobError
  pub fatal_error : Bool
  pub original_log : String
  pub only_log : Bool

pub record DeliveryInfo : Type 0 where
  pub job_id : String
  pub proto : String
  pub speed : ℤ
  pub is_finished : Bool
