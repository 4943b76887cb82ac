-- ===== src/JobQueue/Examples.antt =====
-- A concrete queue, and the theorems on queues at it.
use Prim.Native.Nat.{min, max}
use mathlib.Core.List.{Mem, Pairwise-pair, mem-cons_self}
use mathlib.Core.List.Perm
use lastore_daemon.Base.{ℕ, ◌+◌, ◌-◌, ◌≤◌, List, [], ◌∷◌, ◌≡◌, refl, length, ◌==◌, if◌then◌else◌}
use lastore_daemon.System.{running}
use lastore_daemon.Job.Examples.{download}
use lastore_daemon.JobQueue.{JobQueue, Store, pending_jobs, system_change_queue, clashes}
use lastore_daemon.JobQueue.Sort.{Sorter}
use lastore_daemon.JobQueue.Pending.{pending_capacity, num_running, startable_in}
use lastore_daemon.JobQueue.Distinct.{
  Request, IsDistinct, adds, removes, raises, serve, serve-IsDistinct,
}
use lastore_daemon.JobQueue.Bag.{Steps, contents, serve_all, serve_all-Steps}

-- A sort by which everything is in order.
abbrev unsorted : Sorter
unsorted = record { sort = λ less ps. ps; sort-perm = λ less ps. Perm.refl ps }

abbrev jobs : Store ℕ
jobs p =
    if p == 0
    then record download { status = running; id = "0" }
    else if p == 1
    then record download { id = "1"; packages = "emacs" ∷ [] }
    else record download { id = "2"; packages = "nano" ∷ [] }

abbrev queue : JobQueue
queue = record { name = system_change_queue; cap = 2; jobs = 0 ∷ 1 ∷ [] }

pending_capacity_example :
    (length (pending_jobs unsorted jobs queue)
      ≡ min (2 - num_running jobs (0 ∷ 1 ∷ [])) (length (startable_in jobs (0 ∷ 1 ∷ []))))
    × (length (pending_jobs unsorted jobs queue) + num_running jobs (0 ∷ 1 ∷ [])
        ≤ max 2 (num_running jobs (0 ∷ 1 ∷ [])))
pending_capacity_example = pending_capacity unsorted jobs queue

pending_is : pending_jobs unsorted jobs queue ≡ 1 ∷ []
unfolding pending_jobs
pending_is = refl

given_out : Mem 1 (pending_jobs unsorted jobs queue)
given_out = rw pending_is mem-cons_self

distinct : IsDistinct jobs system_change_queue (0 ∷ 1 ∷ [])
unfolding clashes
distinct = (Pairwise-pair (λ a b. hlevel)).1 refl

serve-IsDistinct_example :
    IsDistinct jobs
      (serve unsorted jobs queue (adds 2)).name
      (serve unsorted jobs queue (adds 2)).jobs
serve-IsDistinct_example = serve-IsDistinct unsorted jobs queue (adds 2) distinct

abbrev requests : List Request
requests = adds 2 ∷ raises "2" ∷ adds 1 ∷ removes "0" ∷ removes "9" ∷ []

serve_all-Steps_example :
    Steps jobs system_change_queue
      (contents queue)
      requests
      (contents (serve_all unsorted jobs queue requests))
serve_all-Steps_example = serve_all-Steps unsorted jobs queue requests
