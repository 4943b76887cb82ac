-- ===== src/JobManager/Search.antt =====
-- How the manager finds jobs by their type, and the ids of new jobs
-- (src/lastore-daemon/job_manager.go).
use lastore_daemon.Base.{
  ℕ, suc, Bool, false, ◌&&◌, ◌||◌, List, [], ◌∷◌, ◌++◌, Option, none, some, String, str_eq,
  if◌then◌else◌,
}
use Prim.Native.String.{◌++◌ as text_append}
use lastore_daemon.System
use lastore_daemon.System.{
  Status, status_eq, failed, Error, not_support, message, Result, ok, err, ProgressInfo,
  DeliveryInfo, JobError,
}
use lastore_daemon.Job.{Job}
use lastore_daemon.JobQueue.{JobQueue, Store, less, join}
use lastore_daemon.JobQueue.Sort.{Sorter}
use lastore_daemon.JobManager.{Manager}

-- What `genJobId` gives as it is.
abbrev is_fixed_id : String → Bool
is_fixed_id t =
    str_eq t System.prepare_dist_upgrade_job
    || str_eq t System.dist_upgrade_job
    || str_eq t System.backup_job
    || str_eq t System.update_source_job
    || str_eq t System.clean_job
    || str_eq t System.prepare_system_upgrade_job
    || str_eq t System.prepare_appstore_upgrade_job
    || str_eq t System.prepare_security_upgrade_job
    || str_eq t System.prepare_unknown_upgrade_job
    || str_eq t System.system_upgrade_job
    || str_eq t System.appstore_upgrade_job
    || str_eq t System.security_upgrade_job
    || str_eq t System.unknown_upgrade_job
    || str_eq t System.check_system_job

-- `isInstallLikeJobType`
unfoldable pub is_install_like : String → Bool
is_install_like t =
    str_eq t System.install_job
    || str_eq t System.only_install_job
    || str_eq t System.system_upgrade_job
    || str_eq t System.security_upgrade_job
    || str_eq t System.unknown_upgrade_job
    || str_eq t System.appstore_upgrade_job

-- All jobs, in the order of the queues.
unfoldable pub all_jobs : List JobQueue → List ℕ
all_jobs [] = []
all_jobs (q ∷ qs) = q.jobs ++ all_jobs qs

module _ {F : Type 0} where
  unfoldable pub is_of_type : String → List String → Job F → Bool
  is_of_type t packages j = str_eq j.job_type t && str_eq (join j.packages) (join packages)

  -- The test of the loop of `findJobByType`.
  unfoldable pub serves_type : Store F → String → List String → ℕ → Bool
  unfolding is_of_type
  serves_type st t packages p =
      let j : Job F = st p in
      str_eq j.id t
      || is_of_type t packages j
      || elim j.next [ none ↦ false | some n ↦ is_of_type t packages (st n) ]

  unfoldable pub first_serving : Store F → String → List String → List ℕ → Option ℕ
  unfolding serves_type
  first_serving st t packages [] = none
  first_serving st t packages (p ∷ ps) =
      if serves_type st t packages p then some p else first_serving st t packages ps

  -- `findJobByType`, which looks through the sorted `List`.
  unfoldable pub find_job_by_type : Sorter → String → List String → Manager F → Option ℕ
  unfolding all_jobs first_serving
  find_job_by_type sorter t packages m =
      first_serving m.store t packages (sorter.sort (less m.store) (all_jobs m.queues))

  unfoldable pub gen_job_id : (ℕ → String) → String → Manager F → Manager F × String
  gen_job_id itoa t m =
      if is_fixed_id t
      then (m, t)
      else (record m { id_count = suc m.id_count }, text_append (itoa (suc m.id_count)) t)
