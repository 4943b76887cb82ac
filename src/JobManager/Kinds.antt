-- ===== src/JobManager/Kinds.antt =====
-- `CreateJob` for each type of job (src/lastore-daemon/job_manager.go).
use lastore_daemon.Base.{
  ℕ, Bool, true, false, not, ◌&&◌, ◌||◌, List, [], ◌∷◌, ◌++◌, Option, none, some, String, str_eq,
  ◌==◌, if◌then◌else◌,
}
use Prim.Native.String.{◌++◌ as text_append}
use lastore_daemon.Base.Int.{pos}
use lastore_daemon.Base.Float.{Float}
use lastore_daemon.System
use lastore_daemon.System.{status_eq, failed, Error, not_support, message, Result, ok, err}
use lastore_daemon.UpdateType.{has, unknown_update}
use lastore_daemon.Job.{Job}
use lastore_daemon.JobQueue.{system_change_queue}
use lastore_daemon.JobQueue.Sort.{Sorter}
use lastore_daemon.JobManager.{
  Manager, Env, Ran, download_queue, lock_queue, delay_lock_queue, mark_ready, mark_start,
}
use lastore_daemon.JobManager.Search.{find_job_by_type}
use lastore_daemon.JobManager.Create.{
  JobArgs, Machine, Order, edit_job, make_job, set_range, one_job, plain, ranged, source_option,
  create_prepare, create_install,
}

abbrev first_package : List String → String
first_package [] = ""
first_package (s ∷ ss) = s

module _ (fl : Float) (machine : Machine) (order : Order) where
  open fl use {Carrier, lit}

  -- An upgrade in two jobs: all sources, and then the unknown ones.
  unfoldable pub create_two_upgrades :
      ℕ → Bool → Manager Carrier → Option (Manager Carrier × Result ℕ)
  unfolding set_range make_job
  create_two_upgrades mode ignore m0 =
      let (m1, p) =
        one_job fl machine order System.dist_upgrade_job System.dist_upgrade_job lock_queue
          order.packages m0 in
      let extra : List (String × String) =
        if ignore then ("DPkg::Options::", "--script-ignore-error") ∷ [] else [] in
      elim (set_range fl machine order (lit 0 0) (lit 70 2) p m1) [
        | none ↦ none
        | some m2 ↦
            let common =
              edit_job p (λ (j : Job Carrier). record j { update_typ = mode; retry = pos 0 }) m2 in
            let (m3, n) =
              one_job fl machine order System.dist_upgrade_job System.dist_upgrade_job lock_queue
                order.packages common in
            elim (set_range fl machine order (lit 71 2) (lit 99 2) n m3) [
              | none ↦ none
              | some m4 ↦ some (
                edit_job p (λ (j : Job Carrier). record j { next = some n })
                    (edit_job n
                      (λ (j : Job Carrier). record j {
                        option = source_option fl machine order unknown_update ++ extra;
                        update_typ = mode;
                        retry = pos 0;
                      })
                      m4),
                ok p,
              )
            ]
      ]

  -- The case `DistUpgradeJobType`
  unfoldable pub create_dist_upgrade :
      JobArgs Carrier → Manager Carrier → Option (Manager Carrier × Result ℕ)
  unfolding create_two_upgrades
  create_dist_upgrade args m = elim args.update_mode [
    | none ↦ some (m, err (message "invalid arg"))
    | some mode ↦ elim args.support_ignore [
      | none ↦ some (m, err (message "invalid arg"))
      | some ignore ↦
          if has mode unknown_update && not (mode == unknown_update)
          then create_two_upgrades mode ignore m
          else (let (m1, p) =
                one_job fl machine order System.dist_upgrade_job System.dist_upgrade_job lock_queue
                  order.packages m in
              elim (set_range fl machine order (lit 0 0) (lit 99 2) p
                (edit_job p (λ (j : Job Carrier). record j { update_typ = mode }) m1)) [
                  | none ↦ none
                  | some m2 ↦ some (m2, ok p)
                ])
    ]
  ]

  -- The `switch` over the type.
  unfoldable pub create_new :
      String → JobArgs Carrier → Manager Carrier → Option (Manager Carrier × Result ℕ)
  unfolding create_dist_upgrade create_prepare create_install make_job
  create_new t args m =
      if str_eq t System.download_job
      then plain fl machine order t System.download_job download_queue order.packages m
      else if str_eq t System.prepare_system_upgrade_job
          || str_eq t System.prepare_appstore_upgrade_job
          || str_eq t System.prepare_security_upgrade_job
          || str_eq t System.prepare_unknown_upgrade_job
      then plain fl machine order t System.prepare_dist_upgrade_job download_queue order.packages m
      else if str_eq t System.prepare_dist_upgrade_job
      then create_prepare fl machine order args m
      else if str_eq t System.install_job
      then create_install fl machine order m
      else if str_eq t System.only_install_job
      then plain fl machine order t System.install_job delay_lock_queue order.packages m
      else if str_eq t System.remove_job
      then plain fl machine order t t system_change_queue order.packages m
      else if str_eq t System.update_source_job
      then ranged fl machine order t t lock_queue [] (lit 11 2) (lit 9 1) m
      else if str_eq t System.dist_upgrade_job
      then create_dist_upgrade args m
      else if str_eq t System.update_job
      then plain fl machine order t t system_change_queue order.packages m
      else if str_eq t System.clean_job
      then plain fl machine order t t lock_queue order.packages m
      else if str_eq t System.fix_error_job
      then (let id = text_append t (text_append "_" (first_package order.packages)) in
          let (m', p) = make_job fl machine order id t lock_queue order.packages m in
          some (m', ok p))
      else if str_eq t System.system_upgrade_job
          || str_eq t System.security_upgrade_job
          || str_eq t System.unknown_upgrade_job
          || str_eq t System.appstore_upgrade_job
      then ranged fl machine order t System.install_job lock_queue order.packages (lit 0 0)
          (lit 99 2) m
      else if str_eq t System.check_system_job
      then plain fl machine order t System.check_system_job system_change_queue [] m
      else if str_eq t System.backup_job
      then plain fl machine order t System.backup_job lock_queue order.packages m
      else some (m, err not_support)

  -- The three results of `CreateJob`: whether the job was there already, the job, and the error.
  abbrev pub Created : Type 0
  Created = Option (Manager Carrier × Bool × Option ℕ × Option Error)

  abbrev pub with_job : Bool → ℕ → Ran Carrier → Created
  with_job known p none = none
  with_job known p (some (m, e)) = some (m, known, some p, e)

  -- `CreateJob`; none is the panic of `_InitProgressRange`.
  unfoldable pub create_job :
      Sorter → Env Carrier → String → JobArgs Carrier → Manager Carrier → Created
  unfolding create_new find_job_by_type
  create_job sorter env t args m = elim (find_job_by_type sorter t order.packages m) [
    | some p ↦
        if status_eq (m.store p).status failed
        then with_job true p (mark_start env p m)
        else some (m, true, some p, none)
    | none ↦ elim (create_new t args m) [
      | none ↦ none
      | some (m', err e) ↦ some (m', false, none, some e)
      | some (m', ok p) ↦ with_job false p (mark_ready env p m')
    ]
  ]
