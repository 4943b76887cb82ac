-- ===== src/UpdateStatus/Restart.antt =====
-- What a restart of the daemon keeps.
use lastore_daemon.Base.{Bool, true, ◌||◌, [], ◌∷◌, Option, none, some, String, ◌≡◌, refl, arith}
use lastore_daemon.UpdateStatus.{
  ModeStatus, mode_status_eq, StatusManager, DaemonStatus, StatusMap, lookup, sync_update_status,
  no_update, not_download, other,
}
use lastore_daemon.UpdateStatus.Sizes.{init_modify_data, reset_all, reset_status}

abbrev pub is_idle : ModeStatus → Bool
is_idle s = mode_status_eq s no_update || mode_status_eq s not_download

abbrev pub known_idle : Option ModeStatus → Bool
known_idle none = true
known_idle (some (other s)) = true
known_idle (some s) = is_idle s

reset_idle : (k : String) (obj : StatusMap) → known_idle (lookup k (reset_all obj)) ≡ true
unfolding reset_all lookup reset_status
reset_idle k [] = refl
reset_idle k ((j, v) ∷ obj) = ground (arith, reset_idle k obj)

-- At the first start after a system upgrade, when the saved object can be read, no kind of update
-- is past `notDownload`, whatever was saved: a status that is known is `noUpdate` or `notDownload`,
-- or is none that the program has.
pub first_boot_idle :
    (d : DaemonStatus) (m : StatusManager) (k : String)
    → known_idle (lookup k (init_modify_data (some d) true m).status_obj) ≡ true
unfolding init_modify_data sync_update_status
first_boot_idle d m k = ground (arith, reset_idle k d.update_status)
