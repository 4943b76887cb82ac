-- ===== src/UpdateStatus.antt =====
-- The status of each kind of update (src/lastore-daemon/update_status.go).
pub mod Operations
pub mod Sizes
pub mod Upgradable
pub mod Writes
pub mod Restart
pub mod SizeBounds
pub mod Modes
pub mod Examples
pub mod Lookup
use Prim.Native.Nat.{bit_and, bit_or}
use lastore_daemon.Base.{
  ℕ, Bool, true, false, not, ◌&&◌, ◌||◌, List, [], ◌∷◌, Option, none, some, String, str_eq, ◌==◌,
  if◌then◌else◌, ltb, suc,
}
use lastore_daemon.UpdateType.{
  has, clear_bits, job_type_of, all_install_update_type, only_security_update, security_update,
  all_install_update,
}

-- `UpdateModeStatus`, a string in the source; `other` is any other, the empty one of a missing key
-- included.
pub data ModeStatus : Type 0 where
  no_update not_download is_downloading download_pause download_err : ModeStatus
  can_upgrade wait_run_upgrade upgrading upgrade_err upgraded : ModeStatus
  other : String → ModeStatus

abbrev pub mode_status_eq : ModeStatus → ModeStatus → Bool
mode_status_eq no_update no_update = true
mode_status_eq not_download not_download = true
mode_status_eq is_downloading is_downloading = true
mode_status_eq download_pause download_pause = true
mode_status_eq download_err download_err = true
mode_status_eq can_upgrade can_upgrade = true
mode_status_eq wait_run_upgrade wait_run_upgrade = true
mode_status_eq upgrading upgrading = true
mode_status_eq upgrade_err upgrade_err = true
mode_status_eq upgraded upgraded = true
mode_status_eq (other s) (other t) = str_eq s t
mode_status_eq _ _ = false

pub data AbStatus : Type 0 where
  not_backup backing_up backup_failed has_backed_up : AbStatus
  other_ab : String → AbStatus

abbrev pub ab_status_eq : AbStatus → AbStatus → Bool
ab_status_eq not_backup not_backup = true
ab_status_eq backing_up backing_up = true
ab_status_eq backup_failed backup_failed = true
ab_status_eq has_backed_up has_backed_up = true
ab_status_eq (other_ab s) (other_ab t) = str_eq s t
ab_status_eq _ _ = false

-- The map from job types to statuses; a key stands at most once.
abbrev pub StatusMap : Type 0
StatusMap = List (String × ModeStatus)

unfoldable pub lookup : String → StatusMap → Option ModeStatus
lookup k [] = none
lookup k ((j, v) ∷ m) = if str_eq j k then some v else lookup k m

unfoldable pub insert : String → ModeStatus → StatusMap → StatusMap
insert k v [] = (k, v) ∷ []
insert k v ((j, w) ∷ m) = if str_eq j k then (j, v) ∷ m else (j, w) ∷ insert k v m

abbrev pub or_empty : Option ModeStatus → ModeStatus
or_empty none = other ""
or_empty (some s) = s

-- What is written to the configuration as JSON.
pub record DaemonStatus : Type 0 where
  pub ab_status : AbStatus
  pub ab_error : String
  pub trigger_backing_up_type : ℕ
  pub backup_failed_type : ℕ
  pub update_status : StatusMap

-- The manager with the part of the configuration that it keeps: `saved_update_mode`,
-- `saved_check_mode`, `daemon_status` (the bits `lastoreDaemonStatus`) and `saved_status`.
pub record StatusManager : Type 0 where
  pub check_mode : ℕ
  pub update_mode : ℕ
  pub status_obj : StatusMap
  pub download_sizes : List (String × ℕ)
  pub ab_status : AbStatus
  pub ab_error : String
  pub trigger_backing_up_type : ℕ
  pub backup_failed_type : ℕ
  pub update_source_once : Bool
  pub saved_update_mode : ℕ
  pub saved_check_mode : ℕ
  pub daemon_status : ℕ
  pub saved_status : Option DaemonStatus

abbrev pub can_upgrade_bit : ℕ
can_upgrade_bit = 1

abbrev pub force_update_bit : ℕ
force_update_bit = 4

-- `UpdateLastoreDaemonStatus` of src/internal/config/config.go
unfoldable pub update_daemon_status : ℕ → Bool → ℕ → ℕ
update_daemon_status bit true status = bit_or status bit
update_daemon_status bit false status = clear_bits status bit

unfoldable pub get_update_status : ℕ → StatusManager → ModeStatus
get_update_status typ m = or_empty (lookup (job_type_of typ) m.status_obj)

-- `canTransition`
unfoldable pub can_transition : ModeStatus → ModeStatus → Bool
can_transition old new =
    if mode_status_eq new download_pause && not (mode_status_eq old is_downloading)
    then false
    else if mode_status_eq new is_downloading && mode_status_eq old can_upgrade
    then false
    else if mode_status_eq new not_download && mode_status_eq old can_upgrade
    then false
    else if mode_status_eq new not_download && mode_status_eq old download_err
    then false
    else if mode_status_eq new not_download && mode_status_eq old upgraded
    then false
    else if mode_status_eq new is_downloading && mode_status_eq old upgraded
    then false
    else if mode_status_eq new not_download && mode_status_eq old wait_run_upgrade
    then false
    else if mode_status_eq new is_downloading && mode_status_eq old wait_run_upgrade
    then false
    else if mode_status_eq new is_downloading && mode_status_eq old upgrade_err
    then false
    else if mode_status_eq new not_download && mode_status_eq old upgrade_err
    then false
    else if mode_status_eq new not_download && mode_status_eq old upgrading
    then false
    else if mode_status_eq new is_downloading && mode_status_eq old upgrading
    then false
    else true

-- `TransitionUpdateStatusValid`: the statuses that an old status must not go to.
unfoldable pub invalid_targets : ModeStatus → List ModeStatus
invalid_targets is_downloading = []
invalid_targets can_upgrade = is_downloading ∷ []
invalid_targets (other s) = []
invalid_targets _ = download_pause ∷ []

abbrev pub contains_mode : List ModeStatus → ModeStatus → Bool
contains_mode [] s = false
contains_mode (v ∷ vs) s = mode_status_eq v s || contains_mode vs s

unfoldable pub transition_update_status_valid : ModeStatus → ModeStatus → Bool
unfolding invalid_targets
transition_update_status_valid old new = not (contains_mode (invalid_targets old) new)

-- `syncUpdateStatusNoLock`
unfoldable pub sync_update_status : StatusManager → StatusManager
sync_update_status m = record m {
  saved_status = some (record {
    ab_status = m.ab_status;
    ab_error = m.ab_error;
    trigger_backing_up_type = m.trigger_backing_up_type;
    backup_failed_type = m.backup_failed_type;
    update_status = m.status_obj;
  });
}

unfoldable pub update_can_upgrade_status : Bool → StatusManager → StatusManager
unfolding update_daemon_status
update_can_upgrade_status can m =
    if bit_and m.daemon_status can_upgrade_bit == can_upgrade_bit
    then (if can then m else record m {
      daemon_status = update_daemon_status can_upgrade_bit false m.daemon_status;
    })
    else (if can
        then record m { daemon_status = update_daemon_status can_upgrade_bit true m.daemon_status }
        else m)

abbrev pub is_upgradable : ModeStatus → Bool
is_upgradable s = mode_status_eq s can_upgrade || mode_status_eq s upgrade_err

-- The loop of `UpdateCheckCanUpgradeByEachStatus`: the map, with the missing keys that it meets, and
-- `checkCanUpgrade`.
unfoldable pub scan_upgradable : ℕ → List ℕ → StatusMap → StatusMap × Bool
scan_upgradable check [] obj = (obj, false)
scan_upgradable check (typ ∷ ts) obj = elim (has check typ) [
  | false ↦ scan_upgradable check ts obj
  | true ↦ elim (lookup (job_type_of typ) obj) [
    | none ↦ scan_upgradable check ts (insert (job_type_of typ) not_download obj)
    | some status ↦ elim (is_upgradable status) [
      | true ↦ (obj, true)
      | false ↦ scan_upgradable check ts obj
    ]
  ]
]

unfoldable pub update_check_can_upgrade : StatusManager → StatusManager
update_check_can_upgrade m =
    let (obj, can) = scan_upgradable m.check_mode all_install_update_type m.status_obj in
    if not m.update_source_once
    then m
    else update_can_upgrade_status can (record m { status_obj = obj })
