-- ===== src/UpdateStatus/Writes.antt =====
-- What the calls that set a status leave in the map of statuses.
use lastore_daemon.Base.{
  ℕ, Bool, true, false, not, ◌&&◌, ◌||◌, List, [], ◌∷◌, some, String, str_eq, ◌≡◌, refl, arith,
  if◌then◌else◌, Bool-cases, ◌⊎◌, ap, sym, str_eq_iff, inl, inr, ◌∙◌,
}
use lastore_daemon.UpdateType.{has, job_type_of, all_install_update_type}
use lastore_daemon.UpdateStatus.{
  ModeStatus, mode_status_eq, not_download, is_downloading, download_pause, can_upgrade,
  wait_run_upgrade, upgrading, upgrade_err, upgraded, other, StatusMap, StatusManager, lookup,
  insert, or_empty, can_transition, scan_upgradable, sync_update_status, update_check_can_upgrade,
  update_can_upgrade_status,
}
use lastore_daemon.UpdateStatus.Operations.{set_update_status, set_status_loop}
use lastore_daemon.UpdateStatus.Lookup.{lookup-insert, scan-lookup}
use lastore_daemon.UpdateStatus.Upgradable.{bit_update_keeps, scanned_of}

-- One of the kinds of update that are installed.
abbrev pub IsInstallType : ℕ → Type 0
IsInstallType typ = (typ ≡ 1) ⊎ (typ ≡ 4) ⊎ (typ ≡ 8)

-- The status that a kind has after `SetUpdateStatus`.
abbrev pub set_to : (mode check typ : ℕ) (old new : ModeStatus) → ModeStatus
set_to mode check typ old new =
    if has mode typ && has check typ && can_transition old new then new else old

mode_eq_sound : (s t : ModeStatus) → mode_status_eq s t ≡ true → s ≡ t
mode_eq_sound (other s) (other t) e = ap other ((str_eq_iff s t).0 e)
mode_eq_sound s t e = ground arith

-- The status under one key after the loop over `ts`.
abbrev followed :
    (mode check : ℕ) (new : ModeStatus) (k : String) → List ℕ → ModeStatus → ModeStatus
followed mode check new k [] old = old
followed mode check new k (t ∷ ts) old =
    followed mode check new k ts
      (if str_eq (job_type_of t) k then set_to mode check t old new else old)

-- The state of the loop after one kind.
abbrev write_if :
    (write : Bool) (j : String) (new : ModeStatus) → StatusMap × Bool → StatusMap × Bool
write_if write j new (obj, c) = if write then (insert j new obj, true) else (obj, c)

lookup-write_if :
    (write : Bool) (k j : String) (old new : ModeStatus) (obj : StatusMap) (c : Bool)
    → lookup k obj ≡ some old
    → lookup k (write_if write j new (obj, c)).0 ≡ some (if str_eq j k && write then new else old)
lookup-write_if write k j old new obj c e = ground (arith, lookup-insert j k new obj)

abbrev guard_of : (mode check typ : ℕ) (old new : ModeStatus) → Bool
guard_of mode check typ old new =
    has mode typ && has check typ && can_transition old new && not (mode_status_eq old new)

set_guard :
    (mode check typ : ℕ) (old new : ModeStatus)
    → (if guard_of mode check typ old new then new else old) ≡ set_to mode check typ old new
set_guard mode check typ old new = ground (arith, mode_eq_sound old new)

step_followed :
    (mode check : ℕ) (new : ModeStatus) (k : String) (t : ℕ) (old : ModeStatus) (obj : StatusMap)
    (c : Bool)
    → lookup k obj ≡ some old
    → lookup k
        (write_if
          (guard_of mode check t (or_empty (lookup (job_type_of t) obj)) new)
          (job_type_of t)
          new
          (obj, c)).0
      ≡ some (if str_eq (job_type_of t) k then set_to mode check t old new else old)
step_followed mode check new k t old obj c e =
    let g = guard_of mode check t (or_empty (lookup (job_type_of t) obj)) new in
    elim (Bool-cases (str_eq (job_type_of t) k)) [
      | inl same ↦
          let here : lookup (job_type_of t) obj ≡ some old =
            ap (λ x. lookup x obj) ((str_eq_iff (job_type_of t) k).0 same) ∙ e in
          lookup-write_if g k (job_type_of t) old new obj c e
          ∙ rw (same, here) (ap some (set_guard mode check t old new))
      | inr differs ↦ lookup-write_if g k (job_type_of t) old new obj c e ∙ rw differs
    ]

loop_followed :
    (mode check : ℕ) (new : ModeStatus) (k : String) (ts : List ℕ) (old : ModeStatus)
    (obj : StatusMap) (c : Bool)
    → lookup k obj ≡ some old
    → lookup k (set_status_loop mode check new ts (obj, c)).0
      ≡ some (followed mode check new k ts old)
unfolding set_status_loop
loop_followed mode check new k [] old obj c e = e
loop_followed mode check new k (t ∷ ts) old obj c e =
    let g = guard_of mode check t (or_empty (lookup (job_type_of t) obj)) new in
    let s = write_if g (job_type_of t) new (obj, c) in
    loop_followed mode check new k ts _ s.0 s.1 (step_followed mode check new k t old obj c e)

-- Either branch of a test has the status, where the branch is taken.
lookup_if :
    (test : Bool) (m m' : StatusManager) (k : String) (v : ModeStatus)
    → (test ≡ true → lookup k m.status_obj ≡ some v)
    → (test ≡ false → lookup k m'.status_obj ≡ some v)
    → lookup k (if test then m else m').status_obj ≡ some v
lookup_if true m m' k v x y = x refl
lookup_if false m m' k v x y = y refl

-- A look over the statuses keeps those that are known.
check-lookup :
    (m : StatusManager) (k : String) (v : ModeStatus)
    → lookup k m.status_obj ≡ some v
    → lookup k (update_check_can_upgrade m).status_obj ≡ some v
unfolding update_check_can_upgrade
check-lookup m k v e =
    let can = (scan_upgradable m.check_mode all_install_update_type m.status_obj).1 in
    lookup_if (not m.update_source_once) m (update_can_upgrade_status can (scanned_of m)) k v
      (λ _. e)
      (λ _.
        ap (lookup k) (bit_update_keeps can (scanned_of m)).1
        ∙ scan-lookup m.check_mode all_install_update_type m.status_obj k v e)

-- The loop meets each kind once.
followed_install :
    (mode check typ : ℕ) (old new : ModeStatus)
    → IsInstallType typ
    → followed mode check new (job_type_of typ) all_install_update_type old
      ≡ set_to mode check typ old new
unfolding all_install_update_type job_type_of
followed_install mode check typ old new (inl e) = rw e refl
followed_install mode check typ old new (inr (inl e)) = rw e refl
followed_install mode check typ old new (inr (inr e)) = rw e refl

write_unchanged :
    (write : Bool) (j : String) (new : ModeStatus) (s : StatusMap × Bool)
    → (write_if write j new s).1 ≡ false
    → (write_if write j new s).0 ≡ s.0
write_unchanged true j new (obj, c) e = ground arith
write_unchanged false j new (obj, c) e = refl

write_flag :
    (write : Bool) (j : String) (new : ModeStatus) (s : StatusMap × Bool)
    → s.1 ≡ true
    → (write_if write j new s).1 ≡ true
write_flag true j new (obj, c) e = refl
write_flag false j new (obj, c) e = e

loop_flag :
    (mode check : ℕ) (new : ModeStatus) (ts : List ℕ) (s : StatusMap × Bool)
    → s.1 ≡ true
    → (set_status_loop mode check new ts s).1 ≡ true
unfolding set_status_loop
loop_flag mode check new [] s e = e
loop_flag mode check new (t ∷ ts) (obj, c) e =
    let g = guard_of mode check t (or_empty (lookup (job_type_of t) obj)) new in
    loop_flag mode check new ts _ (write_flag g (job_type_of t) new (obj, c) e)

-- If nothing is reported as changed, nothing is.
loop_unchanged :
    (mode check : ℕ) (new : ModeStatus) (ts : List ℕ) (s : StatusMap × Bool)
    → (set_status_loop mode check new ts s).1 ≡ false
    → (set_status_loop mode check new ts s).0 ≡ s.0
unfolding set_status_loop
loop_unchanged mode check new [] s e = refl
loop_unchanged mode check new (t ∷ ts) (obj, c) e =
    let g = guard_of mode check t (or_empty (lookup (job_type_of t) obj)) new in
    let s = write_if g (job_type_of t) new (obj, c) in
    elim (Bool-cases s.1) [
      | inl flag ↦ ground (arith, loop_flag mode check new ts s flag)
      | inr clear ↦
          loop_unchanged mode check new ts s e
          ∙ write_unchanged g (job_type_of t) new (obj, c) clear
    ]

-- `SetUpdateStatus` gives the new status to a kind of update that is asked for, is checked, and may
-- go there from its status; otherwise it keeps its status. This holds for each of the three kinds
-- that are installed, when its status is known.
pub set_update_status-lookup :
    (m : StatusManager) (mode typ : ℕ) (old new : ModeStatus)
    → IsInstallType typ
    → lookup (job_type_of typ) m.status_obj ≡ some old
    → lookup (job_type_of typ) (set_update_status mode new m).status_obj
      ≡ some (set_to mode m.check_mode typ old new)
unfolding set_update_status sync_update_status all_install_update_type
set_update_status-lookup m mode typ old new kind e =
    let (obj, changed) =
      set_status_loop mode m.check_mode new all_install_update_type (m.status_obj, false) in
    let set : lookup (job_type_of typ) obj ≡ some (set_to mode m.check_mode typ old new) =
      loop_followed mode m.check_mode new (job_type_of typ) all_install_update_type old m.status_obj
        false e
      ∙ ap some (followed_install mode m.check_mode typ old new kind) in
    let m' : StatusManager = sync_update_status (record m { status_obj = obj }) in
    lookup_if (not changed) m (update_check_can_upgrade m') (job_type_of typ) _
      (λ same.
        ap (lookup (job_type_of typ)) (
          sym (
            loop_unchanged mode m.check_mode new all_install_update_type (m.status_obj, false)
              (ground arith)))
        ∙ set)
      (λ _. check-lookup m' (job_type_of typ) _ set)

-- The statuses from the end of the download on.
abbrev pub is_late : ModeStatus → Bool
is_late s =
    mode_status_eq s can_upgrade
    || mode_status_eq s wait_run_upgrade
    || mode_status_eq s upgrading
    || mode_status_eq s upgrade_err
    || mode_status_eq s upgraded

-- The statuses that the course of a download and an upgrade sets.
abbrev pub is_regular : ModeStatus → Bool
is_regular s =
    is_late s
    || mode_status_eq s not_download
    || mode_status_eq s is_downloading
    || mode_status_eq s download_pause

abbrev pub all_regular : List (ℕ × ModeStatus) → Bool
all_regular [] = true
all_regular ((mode, new) ∷ calls) = is_regular new && all_regular calls

abbrev pub set_many : List (ℕ × ModeStatus) → StatusManager → StatusManager
set_many [] m = m
set_many ((mode, new) ∷ calls) m = set_many calls (set_update_status mode new m)

set_to-late :
    (mode check typ : ℕ) (old new : ModeStatus)
    → is_late old ≡ true
    → is_regular new ≡ true
    → is_late (set_to mode check typ old new) ≡ true
unfolding can_transition
set_to-late mode check typ old new e r = ground (arith)

-- A kind of update that is installed and is past its download stays so through any sequence of
-- `SetUpdateStatus` calls, for any kinds, that set neither `noUpdate` nor `downloadFailed` nor an
-- unknown status: late reports of a download never take it back.
pub late_stays :
    (calls : List (ℕ × ModeStatus)) (m : StatusManager) (typ : ℕ) (old : ModeStatus)
    → IsInstallType typ
    → lookup (job_type_of typ) m.status_obj ≡ some old
    → is_late old ≡ true
    → all_regular calls ≡ true
    → is_late (or_empty (lookup (job_type_of typ) (set_many calls m).status_obj)) ≡ true
late_stays [] m typ old kind e late r = rw e late
late_stays ((mode, new) ∷ calls) m typ old kind e late r =
    late_stays calls (set_update_status mode new m) typ (set_to mode m.check_mode typ old new) kind
      (set_update_status-lookup m mode typ old new kind e)
      (set_to-late mode m.check_mode typ old new late (ground arith)) (ground arith)
