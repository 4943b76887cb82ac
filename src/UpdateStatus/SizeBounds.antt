-- ===== src/UpdateStatus/SizeBounds.antt =====
-- What a look at the sizes can set (`updateModeStatusBySize`).
use lastore_daemon.Base.{
  ℕ, Bool, true, false, List, [], ◌∷◌, some, String, str_eq_iff, ◌≡◌, arith, if◌then◌else◌,
}
use lastore_daemon.UpdateType.{has, job_type_of}
use lastore_daemon.UpdateStatus.{
  ModeStatus, upgraded, no_update, lookup, or_empty, StatusManager, sync_update_status,
}
use lastore_daemon.UpdateStatus.Lookup.{lookup-insert}
use lastore_daemon.UpdateStatus.Sizes.{
  Query, query_failed, sizes, status_of_size, new_status, needed, write_status, size_step,
  size_loop, update_by_size,
}

new_status-upgraded :
    (need all : ℕ) (old : ModeStatus) → new_status need all old ≡ upgraded → old ≡ upgraded
unfolding new_status status_of_size
new_status-upgraded need all old e = ground arith

write_upgraded :
    (typ : ℕ) (new : ModeStatus) (m : StatusManager) (c : Bool) (k : String)
    → (new ≡ upgraded → or_empty (lookup (job_type_of typ) m.status_obj) ≡ upgraded)
    → lookup k (write_status typ new (m, c)).0.status_obj ≡ some upgraded
    → lookup k m.status_obj ≡ some upgraded
write_upgraded typ new m c k h e =
    ground
      (arith, lookup-insert (job_type_of typ) k new m.status_obj, str_eq_iff (job_type_of typ) k)

step_upgraded :
    (query : Query) (typ : ℕ) (m : StatusManager) (c : Bool) (k : String)
    → lookup k (size_step query typ (m, c)).0.status_obj ≡ some upgraded
    → lookup k m.status_obj ≡ some upgraded
unfolding size_step
step_upgraded (query_failed half_installed) typ m c k e =
    ground (arith, write_upgraded typ no_update m c k (λ f. ground arith))
step_upgraded (sizes need all cached) typ m c k e =
    write_upgraded typ
      (new_status (needed need cached) all (or_empty (lookup (job_type_of typ) m.status_obj))) _ c k
      (new_status-upgraded (needed need cached) all _) e

abbrev if_step : Bool → Query → ℕ → StatusManager × Bool → StatusManager × Bool
if_step b query typ s = if b then size_step query typ s else s

if_upgraded :
    (b : Bool) (query : Query) (typ : ℕ) (m : StatusManager) (c : Bool) (k : String)
    → lookup k (if_step b query typ (m, c)).0.status_obj ≡ some upgraded
    → lookup k m.status_obj ≡ some upgraded
if_upgraded true query typ m c k e = step_upgraded query typ m c k e
if_upgraded false query typ m c k e = e

loop_upgraded :
    (query : ℕ → Query) (mode : ℕ) (order : List ℕ) (m : StatusManager) (c : Bool) (k : String)
    → lookup k (size_loop query mode order (m, c)).0.status_obj ≡ some upgraded
    → lookup k m.status_obj ≡ some upgraded
unfolding size_loop
loop_upgraded query mode [] m c k e = e
loop_upgraded query mode (typ ∷ ts) m c k e =
    let s = if_step (has mode typ) (query typ) typ (m, c) in
    if_upgraded (has mode typ) (query typ) typ m c k (loop_upgraded query mode ts s.0 s.1 k e)

-- Whatever the sizes are, and in whatever order the goroutines run one after another, a look at the
-- sizes makes no kind of update `Upgraded`: one that is so afterwards was so before.
pub update_by_size-upgraded :
    (query : ℕ → Query) (order : List ℕ) (mode : ℕ) (m : StatusManager) (k : String)
    → lookup k (update_by_size query order mode m).status_obj ≡ some upgraded
    → lookup k m.status_obj ≡ some upgraded
unfolding update_by_size sync_update_status
update_by_size-upgraded query order mode m k e =
    ground (arith, loop_upgraded query mode order m false k)
