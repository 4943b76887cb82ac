-- ===== src/UpdateStatus/Operations.antt =====
-- The operations of the status manager that its clients call (src/lastore-daemon/update_status.go).
use Prim.Native.Nat.{bit_and, bit_or}
use lastore_daemon.Base.{
  ℕ, suc, Bool, true, false, not, ◌&&◌, ◌||◌, List, [], ◌∷◌, none, some, String, str_eq, ◌==◌,
  if◌then◌else◌,
}
use lastore_daemon.UpdateType.{
  has, clear_bits, job_type_of, all_install_update_type, only_security_update, security_update,
}
use lastore_daemon.UpdateStatus.{
  ModeStatus, mode_status_eq, can_upgrade, wait_run_upgrade, upgrading, upgrade_err, not_download,
  is_downloading, download_pause, download_err, AbStatus, ab_status_eq, backing_up, backup_failed,
  not_backup, has_backed_up, other_ab, StatusMap, lookup, insert, or_empty, StatusManager,
  can_transition, sync_update_status, update_check_can_upgrade, update_daemon_status,
  force_update_bit,
}

-- The loop of `filterMode`, with its two results. The file that `updateSecurityConfigFile` writes
-- is not modelled.
unfoldable pub filter_loop : ℕ → ℕ → List ℕ → ℕ × ℕ → ℕ × ℕ
filter_loop upd check [] (res0, res1) = (res0, res1)
filter_loop upd check (typ ∷ ts) (res0, res1) = filter_loop upd check ts (
    if has upd typ
    then (bit_or res0 typ, if has check typ then bit_or res1 typ else res1)
    else (res0, res1))

unfoldable pub filter_mode : ℕ → ℕ → ℕ × ℕ
unfolding filter_loop
filter_mode upd check =
    let (res0, res1) = filter_loop upd check all_install_update_type (0, 0) in
    (
      if has upd only_security_update then bit_or res0 security_update else res0,
      if has check only_security_update then bit_or res1 security_update else res1,
    )

-- The loop of `SetUpdateStatus`, with the map and `changed`.
unfoldable pub set_status_loop : ℕ → ℕ → ModeStatus → List ℕ → StatusMap × Bool → StatusMap × Bool
set_status_loop mode check new [] (obj, changed) = (obj, changed)
set_status_loop mode check new (typ ∷ ts) (obj, changed) =
    let old = or_empty (lookup (job_type_of typ) obj) in
    set_status_loop mode check new ts (
      if has mode typ && has check typ && can_transition old new && not (mode_status_eq old new)
      then (insert (job_type_of typ) new obj, true)
      else (obj, changed))

unfoldable pub set_update_status : ℕ → ModeStatus → StatusManager → StatusManager
set_update_status mode new m =
    let (obj, changed) =
      set_status_loop mode m.check_mode new all_install_update_type (m.status_obj, false) in
    if not changed
    then m
    else update_check_can_upgrade (sync_update_status (record m { status_obj = obj }))

unfoldable pub set_ab_status : ℕ → AbStatus → String → StatusManager → StatusManager
set_ab_status typ status error m =
    if m.trigger_backing_up_type == typ
      && ab_status_eq m.ab_status status
      && str_eq m.ab_error error
    then m
    else sync_update_status (record m {
      trigger_backing_up_type = typ;
      backup_failed_type = elim status [
        | backing_up ↦ clear_bits m.backup_failed_type typ
        | backup_failed ↦ bit_or m.backup_failed_type typ
        | not_backup ↦ 0
        | has_backed_up ↦ 0
        | other_ab s ↦ m.backup_failed_type
      ];
      ab_status = status;
      ab_error = error;
    })

-- `SetCheckMode`: the manager and the mode that it returns.
unfoldable pub set_check_mode : ℕ → StatusManager → StatusManager × ℕ
set_check_mode mode m =
    let check = (filter_mode m.update_mode mode).1 in
    if mode == m.check_mode then (m, mode) else (
      update_check_can_upgrade (record m { saved_check_mode = check; check_mode = check }),
      check,
    )

-- The loop of `SetUpdateMode` over the bits that changed.
unfoldable pub follow_loop : ℕ → ℕ → List ℕ → ℕ → ℕ
follow_loop old new [] check = check
follow_loop old new (typ ∷ ts) check =
    let check1 =
      if bit_and old typ == typ && bit_and new typ == 0 then clear_bits check typ else check in
    let check2 =
      if bit_and old typ == 0 && bit_and new typ == typ then bit_or check1 typ else check1 in
    follow_loop old new ts check2

unfoldable pub set_update_mode : ℕ → StatusManager → StatusManager × ℕ
set_update_mode mode m =
    let (new, check) = filter_mode mode m.check_mode in
    let m1 : StatusManager = record m { update_mode = new; saved_update_mode = new } in
    let m2 = (set_check_mode (follow_loop m.update_mode new all_install_update_type check) m1).0 in
    if mode == m.update_mode then (m, mode) else (m2, m2.update_mode)

unfoldable pub set_front_force_update : Bool → StatusManager → StatusManager
unfolding update_daemon_status
set_front_force_update force m =
    if bit_and m.daemon_status force_update_bit == force_update_bit
    then (if force then m else record m {
      daemon_status = update_daemon_status force_update_bit false m.daemon_status;
    })
    else (if force
        then record m { daemon_status = update_daemon_status force_update_bit true m.daemon_status }
        else m)

abbrev pub is_downloadable : ModeStatus → Bool
is_downloadable s =
    mode_status_eq s not_download
    || mode_status_eq s is_downloading
    || mode_status_eq s download_pause
    || mode_status_eq s download_err
    || mode_status_eq s can_upgrade

unfoldable pub prepare_loop : ℕ → StatusManager → List ℕ → ℕ → ℕ
prepare_loop origin m [] acc = acc
prepare_loop origin m (typ ∷ ts) acc =
    prepare_loop origin m ts (elim (lookup (job_type_of typ) m.status_obj) [
      | none ↦ acc
      | some status ↦
          if has origin typ && has m.check_mode typ && is_downloadable status
          then bit_or acc typ
          else acc
    ])

-- `GetCanPrepareDistUpgradeMode`
unfoldable pub get_can_prepare_mode : ℕ → StatusManager → ℕ
unfolding prepare_loop
get_can_prepare_mode origin m = prepare_loop origin m all_install_update_type 0

abbrev pub is_installable : ModeStatus → Bool
is_installable s =
    mode_status_eq s can_upgrade || mode_status_eq s upgrading || mode_status_eq s wait_run_upgrade

-- The loop of `GetCanDistUpgradeMode`: `canUpgradeMode`, `upgradeFailedMode` and `canUpgradeCount`.
unfoldable pub dist_loop : ℕ → StatusManager → List ℕ → ℕ × ℕ × ℕ → ℕ × ℕ × ℕ
dist_loop origin m [] (can, failed, n) = (can, failed, n)
dist_loop origin m (typ ∷ ts) (can, failed, n) =
    dist_loop origin m ts (elim (lookup (job_type_of typ) m.status_obj) [
      | none ↦ (can, failed, n)
      | some status ↦
          if has origin typ && has m.check_mode typ
          then (
            if is_installable status then bit_or can typ else can,
            if mode_status_eq status upgrade_err then bit_or failed typ else failed,
            if is_installable status then suc n else n,
          )
          else (can, failed, n)
    ])

unfoldable pub get_can_dist_mode : ℕ → StatusManager → ℕ
unfolding dist_loop
get_can_dist_mode origin m =
    let (can, failed, n) = dist_loop origin m all_install_update_type (0, 0, 0) in
    if n == 0 then failed else can

unfoldable pub upgrading_in : StatusMap → Bool
upgrading_in [] = false
upgrading_in ((k, v) ∷ obj) =
    mode_status_eq v wait_run_upgrade || mode_status_eq v upgrading || upgrading_in obj

unfoldable pub is_upgrading : StatusManager → Bool
unfolding upgrading_in
is_upgrading m = upgrading_in m.status_obj
