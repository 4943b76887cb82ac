-- ===== src/JobQueue.antt =====
-- A queue of jobs (src/lastore-daemon/job_queue.go). The queue holds pointers into a store of jobs,
-- which others change while the job is queued.
pub mod Sort
pub mod Distinct
pub mod Members
pub mod Pending
pub mod Bag
pub mod Examples
use Prim.Native.String.{◌++◌ as text_append}
use lastore_daemon.Base.{
  ℕ, zero, suc, ◌+◌, ◌-◌, Bool, true, false, not, ◌&&◌, ◌||◌, List, [], ◌∷◌, ◌++◌, Option, none,
  some, String, str_eq, if◌then◌else◌, ltb, take, drop, length, get_or, set,
}
use lastore_daemon.Base.Int.{pos, ltb_ℤ}
use lastore_daemon.System.{
  Status, status_eq, ready, running, failed, end, Error, exists_job, not_found, update_source_job,
  Result, ok, err,
}
use lastore_daemon.Job.{Job}
use Sort.{Sorter}
use mathlib.Core.Option

abbrev pub Store : Type 0 → Type 0
Store F = ℕ → Job F

-- `mux` is not modelled: each operation runs as one step.
pub record JobQueue : Type 0 where
  pub name : String
  pub cap : ℕ
  pub jobs : List ℕ

abbrev pub system_change_queue : String
system_change_queue = "system change"

unfoldable pub new_queue : String → ℕ → JobQueue
new_queue name cap = record { name = name; cap = cap; jobs = [] }

-- `strings.Join(l, "")`
unfoldable pub join : List String → String
join [] = ""
join (s ∷ l) = text_append s (join l)

module _ {F : Type 0} (st : Store F) where
  -- `Less`: source updates come before everything, even before one another.
  unfoldable pub less : ℕ → ℕ → Bool
  less i j =
      if str_eq (st i).job_type update_source_job
      then true
      else ltb (st i).create_time (st j).create_time

  -- The two cases of the loop of `PendingJobs` that keep a job.
  unfoldable pub is_startable : ℕ → Bool
  is_startable p =
      status_eq (st p).status ready || status_eq (st p).status failed && ltb_ℤ (pos 0) (st p).retry

  unfoldable pub is_running : ℕ → Bool
  is_running p = status_eq (st p).status running

  -- The loop over the jobs, with `readyJobs` and `numRunning`.
  unfoldable pub scan_pending : List ℕ → List ℕ × ℕ
  unfolding is_startable is_running
  scan_pending [] = ([], 0)
  scan_pending (p ∷ ps) =
      let (startable, n) = scan_pending ps in
      (if is_startable p then p ∷ startable else startable, if is_running p then suc n else n)

  -- The first job with an id: its pointer.
  unfoldable pub find_in : String → List ℕ → Option ℕ
  find_in id [] = none
  find_in id (p ∷ ps) = if str_eq (st p).id id then some p else find_in id ps

  -- The same loop, for `index`.
  unfoldable pub find_index : String → List ℕ → Option ℕ
  find_index id [] = none
  find_index id (p ∷ ps) = if str_eq (st p).id id then some 0 else Option.map suc (find_index id ps)

  -- The test of `Add` against one queued job.
  unfoldable pub clashes : String → ℕ → ℕ → Bool
  unfolding join
  clashes name j p =
      str_eq (st p).job_type (st j).job_type
      && str_eq (join (st p).packages) (join (st j).packages)
      && (str_eq name system_change_queue || str_eq (st p).id (st j).id)

  unfoldable pub clashes_any : String → ℕ → List ℕ → Bool
  unfolding clashes
  clashes_any name j [] = false
  clashes_any name j (p ∷ ps) = clashes name j p || clashes_any name j ps

  unfoldable pub done_in : List ℕ → List ℕ
  done_in [] = []
  done_in (p ∷ ps) = if status_eq (st p).status end then p ∷ done_in ps else done_in ps

  unfoldable pub running_in : List ℕ → List ℕ
  running_in [] = []
  running_in (p ∷ ps) =
      if status_eq (st p).status ready || status_eq (st p).status running
      then p ∷ running_in ps
      else running_in ps

-- The loop that counts `n` up while there is room and a job to put there.
unfoldable pub fill_room : ℕ → ℕ → ℕ → ℕ
fill_room (suc space) (suc pending) n = fill_room space pending (suc n)
fill_room _ _ n = n

unfoldable pub remove_at : ℕ → List ℕ → List ℕ
remove_at i ps = take i ps ++ drop (suc i) ps

-- `Swap(0, i)`
unfoldable pub swap_head : ℕ → List ℕ → List ℕ
swap_head i [] = []
swap_head zero (p ∷ ps) = p ∷ ps
swap_head (suc i) (p ∷ ps) = get_or ps i p ∷ set ps i p

module _ {F : Type 0} (st : Store F) where
  unfoldable pub done_jobs : JobQueue → List ℕ
  unfolding done_in
  done_jobs q = done_in st q.jobs

  unfoldable pub running_jobs : JobQueue → List ℕ
  unfolding running_in
  running_jobs q = running_in st q.jobs

  unfoldable pub find : JobQueue → String → Option ℕ
  unfolding find_in
  find q id = find_in st id q.jobs

  unfoldable pub raise : JobQueue → String → Result JobQueue
  unfolding find_index swap_head
  raise q id = elim (find_index st id q.jobs) [
    | none ↦ err (not_found id)
    | some i ↦ ok (record q { jobs = swap_head i q.jobs })
  ]

module _ {F : Type 0} (sorter : Sorter) (st : Store F) where
  open sorter use {sort}

  unfoldable pub pending_jobs : JobQueue → List ℕ
  unfolding scan_pending fill_room
  pending_jobs q =
      let (startable, num_running) = scan_pending st q.jobs in
      let n = fill_room (q.cap - num_running) (length startable) 0 in
      sort (less st) (take n startable)

  -- `Add` of a job that is not nil.
  unfoldable pub add : JobQueue → ℕ → Result JobQueue
  unfolding clashes_any
  add q j =
      if clashes_any st q.name j q.jobs
      then err exists_job
      else ok (record q { jobs = sort (less st) (q.jobs ++ (j ∷ [])) })

  unfoldable pub remove : JobQueue → String → Result (ℕ × JobQueue)
  unfolding find_index remove_at
  remove q id = elim (find_index st id q.jobs) [
    | none ↦ err (not_found id)
    | some i ↦ ok (get_or q.jobs i 0, record q { jobs = sort (less st) (remove_at i q.jobs) })
  ]
