-- ===== src/JobQueue/Pending.antt =====
-- Which jobs a queue gives out to be started (`PendingJobs`).
use Prim.Native.Nat.{min, max}
use native.Mathlib.Nat.{zero-add}
use mathlib.Core.List.{Mem, Perm}
use mathlib.Core.List.Perm
use lastore_daemon.Base.{
  ℕ, zero, suc, ◌+◌, ◌-◌, ◌≤◌, ◌≡◌, refl, ap, ◌∙◌, arith, true, List, [], ◌∷◌, length, keep, take,
  length-take, perm-length, mem-take, mem-keep,
}
use lastore_daemon.JobQueue.{
  JobQueue, Store, is_startable, is_running, scan_pending, fill_room, pending_jobs, less,
}
use lastore_daemon.JobQueue.Sort.{Sorter}

fill_room-eq : (space pending n : ℕ) → fill_room space pending n ≡ n + min space pending
unfolding fill_room
fill_room-eq zero pending n = omega arith
fill_room-eq (suc space) zero n = omega arith
fill_room-eq (suc space) (suc pending) n = omega (arith, fill_room-eq space pending (suc n))

module _ {F : Type 0} (st : Store F) where
  abbrev pub startable_in : List ℕ → List ℕ
  startable_in = keep (is_startable st)

  abbrev pub num_running : List ℕ → ℕ
  num_running ps = length (keep (is_running st) ps)

  scan_pending-eq : (ps : List ℕ) → scan_pending st ps ≡ (startable_in ps, num_running ps)
  unfolding scan_pending
  scan_pending-eq [] = refl
  scan_pending-eq (p ∷ ps) = ground (arith, scan_pending-eq ps)

module _ {F : Type 0} (sorter : Sorter) (st : Store F) (q : JobQueue) where
  abbrev room : ℕ
  room = min (q.cap - num_running st q.jobs) (length (startable_in st q.jobs))

  pending-eq : pending_jobs sorter st q ≡ sorter.sort (less st) (take room (startable_in st q.jobs))
  unfolding pending_jobs
  pending-eq =
      rw (scan_pending-eq st q.jobs, pending_jobs)
        (ap (λ n. sorter.sort (less st) (take n (startable_in st q.jobs)))
          (fill_room-eq (q.cap - num_running st q.jobs) (length (startable_in st q.jobs)) 0
            ∙ zero-add room))

  -- The queue gives out the first jobs that can start, as many as there are and as there is room
  -- for beside the running ones, in some order.
  pub pending-perm : Perm (pending_jobs sorter st q) (take room (startable_in st q.jobs))
  pending-perm = rw pending-eq (sorter.sort-perm _ _)

  -- Exactly so many jobs are given out as there is room for beside the running ones, or as can
  -- start; so together with the running ones they are no more than `cap`, or than those that run.
  pub pending_capacity :
      (length (pending_jobs sorter st q)
        ≡ min (q.cap - num_running st q.jobs) (length (startable_in st q.jobs)))
      × (length (pending_jobs sorter st q) + num_running st q.jobs
          ≤ max q.cap (num_running st q.jobs))
  pending_capacity =
      omega (arith, perm-length pending-perm, length-take room (startable_in st q.jobs))

  -- A job that is given out is in the queue, and is ready, or failed with retries left.
  pub mem-pending :
      (p : ℕ) → Mem p (pending_jobs sorter st q) → Mem p q.jobs × (is_startable st p ≡ true)
  mem-pending p m =
      mem-keep (is_startable st) q.jobs
        (mem-take room (startable_in st q.jobs) ((Perm.mem_iff pending-perm).0 m))
