-- ===== src/UpdateStatus/Sizes.antt =====
-- The statuses from the sizes of what is left to download, and the state after a start
-- (`updateModeStatusBySize`, `NewStatusManager` and `InitModifyData` of
-- src/lastore-daemon/update_status.go).
use lastore_daemon.Base.{
  ℕ, Bool, true, false, ◌&&◌, List, [], ◌∷◌, Option, none, some, String, str_eq, ◌==◌,
  if◌then◌else◌, ltb,
}
use lastore_daemon.UpdateType.{has, job_type_of, all_install_update_type, all_install_update}
use lastore_daemon.UpdateStatus.{
  ModeStatus, mode_status_eq, no_update, not_download, is_downloading, download_pause, download_err,
  can_upgrade, wait_run_upgrade, upgrading, upgrade_err, upgraded, not_backup, other_ab, StatusMap,
  lookup, insert, or_empty, DaemonStatus, StatusManager, sync_update_status, update_daemon_status,
  can_upgrade_bit,
}
use lastore_daemon.UpdateStatus.Operations.{filter_mode}

-- The answer to the query for one kind of update. Sizes are numbers of bytes; of the `float64` of
-- the source only the tests against 0 are used. `cached` is the answer of `UseIncrementalUpdate`
-- and `IsIncrementalUpdateCached` together; `half_installed` tells the one error that is told apart.
pub data Query : Type 0 where
  query_failed : (half_installed : Bool) → Query
  sizes : (need all : ℕ) (cached : Bool) → Query

-- The inner `switch`: some packages are to be updated.
unfoldable pub status_of_size : Bool → ModeStatus → ModeStatus
status_of_size true no_update = can_upgrade
status_of_size false no_update = not_download
status_of_size true not_download = can_upgrade
status_of_size false not_download = not_download
status_of_size true is_downloading = can_upgrade
status_of_size false is_downloading = is_downloading
status_of_size true download_pause = can_upgrade
status_of_size false download_pause = download_pause
status_of_size true download_err = can_upgrade
status_of_size false download_err = not_download
status_of_size true can_upgrade = can_upgrade
status_of_size false can_upgrade = not_download
status_of_size true upgrade_err = upgrade_err
status_of_size false upgrade_err = not_download
status_of_size true upgraded = upgraded
status_of_size false upgraded = not_download
status_of_size _ old = old

-- `newStatus` of a query that was answered.
unfoldable pub new_status : ℕ → ℕ → ModeStatus → ModeStatus
unfolding status_of_size
new_status need all old =
    if all == 0
    then (if mode_status_eq old upgraded then old else no_update)
    else status_of_size (need == 0) old

abbrev pub needed : ℕ → Bool → ℕ
needed need cached = if cached && ltb 0 need then 0 else need

unfoldable pub any_upgrading : StatusMap → Bool
any_upgrading [] = false
any_upgrading ((k, v) ∷ obj) = if mode_status_eq v upgrading then true else any_upgrading obj

unfoldable pub set_size : String → ℕ → List (String × ℕ) → List (String × ℕ)
set_size k v [] = (k, v) ∷ []
set_size k v ((j, w) ∷ m) = if str_eq j k then (j, v) ∷ m else (j, w) ∷ set_size k v m

abbrev pub write_status : ℕ → ModeStatus → StatusManager × Bool → StatusManager × Bool
write_status typ new (m, changed) =
    if mode_status_eq new (or_empty (lookup (job_type_of typ) m.status_obj))
    then (m, changed)
    else (record m { status_obj = insert (job_type_of typ) new m.status_obj }, true)

-- The goroutine of one kind of update, as one step. (In the source the goroutines write the map at
-- the same time with no lock between them.)
unfoldable pub size_step : Query → ℕ → StatusManager × Bool → StatusManager × Bool
unfolding new_status any_upgrading set_size
size_step (query_failed half_installed) typ (m, changed) =
    if half_installed && any_upgrading m.status_obj
    then (m, changed)
    else write_status typ no_update (m, changed)
size_step (sizes need all cached) typ (m, changed) =
    let old = or_empty (lookup (job_type_of typ) m.status_obj) in
    write_status typ (new_status (needed need cached) all old) (
      record m {
        download_sizes = set_size (job_type_of typ) (needed need cached) m.download_sizes;
      },
      changed,
    )

unfoldable pub size_loop : (ℕ → Query) → ℕ → List ℕ → StatusManager × Bool → StatusManager × Bool
unfolding size_step
size_loop query mode [] s = s
size_loop query mode (typ ∷ ts) s =
    size_loop query mode ts (if has mode typ then size_step (query typ) typ s else s)

-- `updateModeStatusBySize`; `order` is the order in which the goroutines run.
unfoldable pub update_by_size : (ℕ → Query) → List ℕ → ℕ → StatusManager → StatusManager
unfolding size_loop
update_by_size query order mode m =
    let (m', changed) = size_loop query mode order (m, false) in
    if changed then sync_update_status m' else m'

-- `NewStatusManager`
unfoldable pub new_status_manager : (update_mode check_mode daemon_status : ℕ) → StatusManager
new_status_manager update_mode check_mode daemon_status = record {
  check_mode = check_mode;
  update_mode = update_mode;
  status_obj = [];
  download_sizes = [];
  ab_status = other_ab "";
  ab_error = "";
  trigger_backing_up_type = 0;
  backup_failed_type = 0;
  update_source_once = false;
  saved_update_mode = update_mode;
  saved_check_mode = check_mode;
  daemon_status = daemon_status;
  saved_status = none;
}

unfoldable pub reset_status : ModeStatus → ModeStatus
reset_status is_downloading = not_download
reset_status download_pause = not_download
reset_status download_err = not_download
reset_status upgrade_err = not_download
reset_status upgrading = not_download
reset_status wait_run_upgrade = not_download
reset_status can_upgrade = not_download
reset_status upgraded = no_update
reset_status s = s

unfoldable pub reset_all : StatusMap → StatusMap
unfolding reset_status
reset_all [] = []
reset_all ((k, v) ∷ obj) = (k, reset_status v) ∷ reset_all obj

abbrev pub not_downloaded : List ℕ → StatusMap
not_downloaded [] = []
not_downloaded (typ ∷ ts) = (job_type_of typ, not_download) ∷ not_downloaded ts

-- `InitModifyData`; `decoded` is the saved JSON over the defaults, or none if it cannot be read.
unfoldable pub init_modify_data : Option DaemonStatus → Bool → StatusManager → StatusManager
unfolding filter_mode reset_all update_daemon_status
init_modify_data decoded first_boot m0 =
    let (upd, check) = filter_mode m0.update_mode m0.check_mode in
    let m : StatusManager = record m0 {
      update_mode = upd;
      saved_update_mode = upd;
      check_mode = check;
      saved_check_mode = check;
    } in
    let done =
      λ (r : StatusManager). let s = sync_update_status r in record s { download_sizes = [] } in
    elim decoded [
      | none ↦ done (record m {
        status_obj = not_downloaded all_install_update_type;
        trigger_backing_up_type = all_install_update;
        ab_status = not_backup;
        ab_error = "noError";
      })
      | some d ↦
          if first_boot
          then done (record m {
            status_obj = reset_all d.update_status;
            trigger_backing_up_type = all_install_update;
            ab_status = not_backup;
            ab_error = "noError";
            daemon_status = update_daemon_status can_upgrade_bit false m.daemon_status;
          })
          else done (record m {
            status_obj = d.update_status;
            trigger_backing_up_type = d.trigger_backing_up_type;
            ab_status = d.ab_status;
            ab_error = d.ab_error;
          })
    ]
