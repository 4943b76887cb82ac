-- ===== src/UpdateStatus/Lookup.antt =====
-- Reading the map of statuses after a write.
use lastore_daemon.Base.{
  ℕ, Bool, true, false, ◌&&◌, List, [], ◌∷◌, none, some, String, str_eq, str_eq_iff, ◌≡◌, refl,
  arith, if◌then◌else◌,
}
use lastore_daemon.UpdateType.{has, job_type_of}
use lastore_daemon.UpdateStatus.{
  ModeStatus, not_download, StatusMap, lookup, insert, or_empty, is_upgradable, scan_upgradable,
}

pub lookup-insert :
    (k j : String) (v : ModeStatus) (m : StatusMap)
    → lookup j (insert k v m) ≡ (if str_eq k j then some v else lookup j m)
unfolding lookup insert
lookup-insert k j v [] = refl
lookup-insert k j v ((i, w) ∷ m) =
    ground (arith, str_eq_iff k j, str_eq_iff i k, str_eq_iff i j, lookup-insert k j v m)

-- The scan only adds keys.
pub scan-lookup :
    (check : ℕ) (ts : List ℕ) (obj : StatusMap) (k : String) (v : ModeStatus)
    → lookup k obj ≡ some v
    → lookup k (scan_upgradable check ts obj).0 ≡ some v
unfolding scan_upgradable
scan-lookup check [] obj k v e = e
scan-lookup check (typ ∷ ts) obj k v e = ground (
  arith,
  scan-lookup check ts obj k v e,
  scan-lookup check ts (insert (job_type_of typ) not_download obj) k v,
  lookup-insert (job_type_of typ) k not_download obj,
  str_eq_iff (job_type_of typ) k,
)

-- Some checked kind of update is upgradable, or its last upgrade failed.
abbrev pub any_upgradable : ℕ → List ℕ → StatusMap → Bool
any_upgradable check [] obj = false
any_upgradable check (typ ∷ ts) obj =
    if has check typ && is_upgradable (or_empty (lookup (job_type_of typ) obj))
    then true
    else any_upgradable check ts obj

-- Writing `notDownload` under a missing key makes nothing upgradable.
any_upgradable-insert :
    (check : ℕ) (ts : List ℕ) (obj : StatusMap) (k : String)
    → lookup k obj ≡ none
    → any_upgradable check ts (insert k not_download obj) ≡ any_upgradable check ts obj
any_upgradable-insert check [] obj k e = refl
any_upgradable-insert check (typ ∷ ts) obj k e = ground (
  arith,
  any_upgradable-insert check ts obj k e,
  lookup-insert k (job_type_of typ) not_download obj,
  str_eq_iff k (job_type_of typ),
)

pub scan-any :
    (check : ℕ) (ts : List ℕ) (obj : StatusMap)
    → (scan_upgradable check ts obj).1 ≡ any_upgradable check ts obj
unfolding scan_upgradable
scan-any check [] obj = refl
scan-any check (typ ∷ ts) obj = ground (
  arith,
  scan-any check ts obj,
  scan-any check ts (insert (job_type_of typ) not_download obj),
  any_upgradable-insert check ts obj (job_type_of typ),
)

-- The scan leaves the answer as it is.
pub any_upgradable-scan :
    (check : ℕ) (ts us : List ℕ) (obj : StatusMap)
    → any_upgradable check us (scan_upgradable check ts obj).0 ≡ any_upgradable check us obj
unfolding scan_upgradable
any_upgradable-scan check [] us obj = refl
any_upgradable-scan check (typ ∷ ts) us obj = ground (
  arith,
  any_upgradable-scan check ts us obj,
  any_upgradable-scan check ts us (insert (job_type_of typ) not_download obj),
  any_upgradable-insert check us obj (job_type_of typ),
)
