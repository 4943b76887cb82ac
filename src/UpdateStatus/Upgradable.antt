-- ===== src/UpdateStatus/Upgradable.antt =====
-- The bit `CanUpgrade` of the daemon's status follows the statuses of the checked updates.
use Prim.Native.Nat.{bit_and}
use lastore_daemon.Base.{ℕ, Bool, true, ◌≡◌, arith, ◌==◌, String}
use lastore_daemon.UpdateType.{all_install_update_type}
use lastore_daemon.UpdateStatus.{
  ModeStatus, AbStatus, StatusManager, can_upgrade_bit, update_can_upgrade_status,
  update_check_can_upgrade, scan_upgradable,
}
use lastore_daemon.UpdateStatus.Operations.{
  set_update_status, set_check_mode, set_update_mode, set_ab_status,
}
use lastore_daemon.UpdateStatus.Lookup.{any_upgradable}

abbrev pub can_upgrade_of : StatusManager → Bool
can_upgrade_of m = bit_and m.daemon_status can_upgrade_bit == can_upgrade_bit

abbrev pub any_upgradable_of : StatusManager → Bool
any_upgradable_of m = any_upgradable m.check_mode all_install_update_type m.status_obj

abbrev pub BitAgrees : StatusManager → Type 0
BitAgrees m = can_upgrade_of m ≡ any_upgradable_of m

pub bit_update_keeps :
    (can : Bool) (m : StatusManager)
    → ((update_can_upgrade_status can m).check_mode ≡ m.check_mode)
      × ((update_can_upgrade_status can m).status_obj ≡ m.status_obj)
      × ((update_can_upgrade_status can m).update_source_once ≡ m.update_source_once)
unfolding update_can_upgrade_status
bit_update_keeps can m = ground arith

abbrev pub scanned_of : StatusManager → StatusManager
scanned_of m = record m {
  status_obj = (scan_upgradable m.check_mode all_install_update_type m.status_obj).0;
}

pub check_lem :
    (m : StatusManager)
    → m.update_source_once ≡ true
    → update_check_can_upgrade m
      ≡ update_can_upgrade_status
          (scan_upgradable m.check_mode all_install_update_type m.status_obj).1
          (scanned_of m)
unfolding update_check_can_upgrade
check_lem m once = rw once

abbrev Agreeing : StatusManager → Type 0
Agreeing m = BitAgrees m × (m.update_source_once ≡ true)

-- What clients of the manager call.
pub data Call : Type 0 where
  sets_status : ℕ → ModeStatus → Call
  sets_check_mode sets_update_mode : ℕ → Call
  sets_ab_status : ℕ → AbStatus → String → Call

abbrev pub serve : StatusManager → Call → StatusManager
serve m (sets_status mode new) = set_update_status mode new m
serve m (sets_check_mode mode) = (set_check_mode mode m).0
serve m (sets_update_mode mode) = (set_update_mode mode m).0
serve m (sets_ab_status typ status error) = set_ab_status typ status error m
