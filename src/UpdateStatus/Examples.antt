-- ===== src/UpdateStatus/Examples.antt =====
-- A concrete state of the manager of the statuses, and the theorems on it.
use lastore_daemon.Base.{ℕ, true, false, [], ◌∷◌, none, some, ◌≡◌, refl, inl}
use lastore_daemon.UpdateType.{job_type_of, all_install_update_type}
use lastore_daemon.UpdateStatus.{
  StatusManager, upgraded, insert, DaemonStatus, lookup, or_empty, can_upgrade, is_downloading,
  upgrading, not_backup, sync_update_status,
}
use lastore_daemon.UpdateStatus.Operations.{set_update_status, filter_mode, filter_loop}
use lastore_daemon.UpdateStatus.SizeBounds.{update_by_size-upgraded}
use lastore_daemon.UpdateStatus.Sizes.{Query, sizes, update_by_size}
use lastore_daemon.UpdateStatus.Writes.{
  set_to, set_update_status-lookup, is_late, set_many, late_stays,
}

abbrev manager : StatusManager
manager = record {
  check_mode = 5;
  update_mode = 5;
  status_obj = ("system_upgrade", can_upgrade) ∷ ("security_upgrade", is_downloading) ∷ [];
  download_sizes = [];
  ab_status = not_backup;
  ab_error = "";
  trigger_backing_up_type = 0;
  backup_failed_type = 4;
  update_source_once = true;
  saved_update_mode = 5;
  saved_check_mode = 5;
  daemon_status = 1;
  saved_status = none;
}

system_known : lookup (job_type_of 1) manager.status_obj ≡ some can_upgrade
unfolding lookup job_type_of
system_known = refl

set_update_status-lookup_example :
    lookup (job_type_of 1) (set_update_status 1 upgrading manager).status_obj
    ≡ some (set_to 1 5 1 can_upgrade upgrading)
set_update_status-lookup_example =
    set_update_status-lookup manager 1 1 can_upgrade upgrading (inl refl) system_known

late_stays_example :
    is_late (
      or_empty (
        lookup
          (job_type_of 1)
          (set_many ((1, is_downloading) ∷ (1, upgrading) ∷ []) manager).status_obj))
    ≡ true
late_stays_example =
    late_stays ((1, is_downloading) ∷ (1, upgrading) ∷ []) manager 1 can_upgrade (inl refl)
      system_known refl refl

-- A check mode with the legacy bit gets `SecurityUpdate` although the update mode has it not.
legacy_check_mode : filter_mode 1 17 ≡ (1, 5)
unfolding filter_mode filter_loop all_install_update_type
legacy_check_mode = refl

abbrev saved : DaemonStatus
saved = record {
  ab_status = not_backup;
  ab_error = "";
  trigger_backing_up_type = 0;
  backup_failed_type = 4;
  update_status = ("system_upgrade", upgrading) ∷ [];
}

abbrev rebooting : StatusManager
rebooting = record manager { status_obj = ("system_upgrade", upgraded) ∷ [] }

abbrev nothing_left : ℕ → Query
nothing_left typ = sizes 0 0 false

stays_upgraded :
    lookup "system_upgrade" (update_by_size nothing_left (8 ∷ 1 ∷ 4 ∷ []) 13 rebooting).status_obj
    ≡ some upgraded
unfolding update_by_size job_type_of lookup insert sync_update_status
stays_upgraded = refl

update_by_size-upgraded_example : lookup "system_upgrade" rebooting.status_obj ≡ some upgraded
update_by_size-upgraded_example =
    update_by_size-upgraded nothing_left (8 ∷ 1 ∷ 4 ∷ []) 13 rebooting "system_upgrade"
      stays_upgraded
