-- ===== src/Apt/Requests.antt =====
-- What the daemon asks of the package manager (src/internal/system/apt/proxy.go).
use lastore_daemon.Base.{
  ℕ, Bool, true, false, ◌&&◌, List, [], ◌∷◌, ◌++◌, Option, none, some, String, str_eq,
  if◌then◌else◌,
}
use lastore_daemon.Base.Assoc.{Assoc}
use lastore_daemon.Base.Float.{Float}
use lastore_daemon.System.{
  JobError, Error, job_error, message, not_found, running, download_job, install_job, remove_job,
  dist_upgrade_job, prepare_dist_upgrade_job, update_source_job, clean_job, fix_error_job,
  backup_job, incremental_download_job, ProgressInfo,
}
use lastore_daemon.Command.{
  Command, AptSystem, AtExit, find_cmd, indicate, abort_command, put_command, report,
}
use lastore_daemon.Command.Env.{read_environ}
use lastore_daemon.Apt.{validate_package_names, option_to_args, incremental_update_job}
use lastore_daemon.Apt.Operations.{
  Output, Answers, Ran, speed_args, upgrade_arg_string, set_variable, check_pkg_system_error,
  make_command, start_made, safe_start,
}

abbrev pub remount : String
remount = "IMMUTABLE_DISABLE_REMOUNT"

abbrev pub upgrade_option : String
upgrade_option = "DEEPIN_IMMUTABLE_UPGRADE_APT_OPTION"

module _ (fl : Float) (parse_float : String → Option fl.Carrier) (own_environ : List String) where
  open fl use {Carrier, lit}

  abbrev pub make :
      String
      → String
      → List String
      → Option (Assoc String)
      → AptSystem Carrier
      → Option (AptSystem Carrier × ℕ)
  make = make_command fl parse_float own_environ

  abbrev pub invalid_name : AptSystem Carrier → Ran Carrier
  invalid_name s = some (s, some (message "invalid package name"))

  -- The error of the check is returned, or the operation goes on.
  abbrev pub checked :
      Bool → Answers → (AptSystem Carrier → Ran Carrier) → AptSystem Carrier → Ran Carrier
  checked lock a go s =
      let (s', error) = check_pkg_system_error fl parse_float own_environ lock a.check s in
      elim error [ some e ↦ some (s', some (job_error e)) | none ↦ go s' ]

  -- A command whose map of variables gets an entry; none is the panic of a write to a nil map.
  abbrev pub make_with :
      String
      → String
      → String
      → String
      → List String
      → Option (Assoc String)
      → AptSystem Carrier
      → Option (AptSystem Carrier × ℕ)
  make_with key value id cmd_type args vars s = elim (set_variable key value vars) [
    | none ↦ none
    | some vars' ↦ make id cmd_type args (some vars') s
  ]

  unfoldable pub download_packages :
      String
      → List String
      → Option (Assoc String)
      → Assoc String
      → Answers
      → AptSystem Carrier
      → Ran Carrier
  download_packages id packages vars args a s =
      if validate_package_names packages
      then checked false a
          (λ s'.
            start_made fl parse_float own_environ a
              (make id download_job (packages ++ option_to_args args) vars s'))
          s
      else invalid_name s

  unfoldable pub download_source :
      String
      → List String
      → Option (Assoc String)
      → Assoc String
      → Answers
      → AptSystem Carrier
      → Ran Carrier
  download_source id packages vars args a s =
      if validate_package_names packages
      then start_made fl parse_float own_environ a (
          if s.incremental_update
          then make_with upgrade_option (upgrade_arg_string args) id incremental_download_job
              (speed_args args) vars s
          else make id prepare_dist_upgrade_job (packages ++ option_to_args args) vars s)
      else invalid_name s

  unfoldable pub remove :
      String → List String → Option (Assoc String) → Answers → AptSystem Carrier → Ran Carrier
  remove id packages vars a s =
      if validate_package_names packages
      then checked true a
          (λ s'.
            safe_start fl parse_float own_environ a
              (make_with remount "false" id remove_job packages vars s'))
          s
      else invalid_name s

  unfoldable pub install :
      String
      → List String
      → Option (Assoc String)
      → Assoc String
      → Answers
      → AptSystem Carrier
      → Ran Carrier
  install id packages vars args a s =
      if validate_package_names packages
      then checked true a
          (λ s'.
            safe_start fl parse_float own_environ a
              (make_with remount "false" id install_job (option_to_args args ++ packages) vars s'))
          s
      else invalid_name s

  abbrev pub upgrade :
      String
      → List String
      → Option (Assoc String)
      → Assoc String
      → Answers
      → AptSystem Carrier
      → Ran Carrier
  upgrade id packages vars args a s =
      if s.incremental_update
      then start_made fl parse_float own_environ a (
          make_with upgrade_option (upgrade_arg_string args) id incremental_update_job
            (speed_args args) vars s)
      else safe_start fl parse_float own_environ a
          (make_with remount "false" id dist_upgrade_job (option_to_args args ++ packages) vars s)

  -- An error that dependencies are broken does not stop an upgrade.
  unfoldable pub dist_upgrade :
      String
      → List String
      → Option (Assoc String)
      → Assoc String
      → Answers
      → AptSystem Carrier
      → Ran Carrier
  dist_upgrade id packages vars args a s =
      if validate_package_names packages
      then (let (s', error) = check_pkg_system_error fl parse_float own_environ true a.check s in
          elim error [
            | none ↦ upgrade id packages vars args a s'
            | some e ↦
                if str_eq e.err_type "dependenciesBroken"
                then upgrade id packages vars args a s'
                else some (s', some (job_error e))
          ])
      else invalid_name s

  -- The remotes are updated before, in an incremental update; an error of that is only logged.
  unfoldable pub update_source :
      String → Option (Assoc String) → Assoc String → Answers → AptSystem Carrier → Ran Carrier
  update_source id vars args a s = elim (make id update_source_job (option_to_args args) vars s) [
    | none ↦ none
    | some (s', p) ↦
        start_made fl parse_float own_environ a
          (some (put_command p (record (s'.commands p) { at_exit_fn = AtExit.check_index }) s', p))
  ]

  unfoldable pub clean : String → Answers → AptSystem Carrier → Ran Carrier
  clean id a s = start_made fl parse_float own_environ a (make id clean_job [] none s)

  -- `Abort` and `AbortWithFailed`; `killed` is the error of the signal.
  unfoldable pub abort :
      Bool → Option Error → String → AptSystem Carrier → AptSystem Carrier × Option Error
  abort with_failed killed id s = elim (find_cmd id s) [
    | none ↦ (s, some (not_found id))
    | some p ↦ abort_command with_failed killed p s
  ]

  -- `configured` is how `dpkg --configure -a` ended.
  unfoldable pub fix_error :
      String
      → String
      → Option (Assoc String)
      → Assoc String
      → Output
      → Answers
      → AptSystem Carrier
      → Ran Carrier
  fix_error id err_type vars args configured a s =
      let made =
        make_with remount "false" id fix_error_job (err_type ∷ option_to_args args) vars s in
      if str_eq err_type "dependenciesBroken"
      then safe_start fl parse_float own_environ a made
      else if str_eq err_type "dpkgInterrupted" && configured.is_error
      then elim made [
        | none ↦ none
        | some (s', p) ↦ some (s', some (message "run dpkg --configure -a err"))
      ]
      else start_made fl parse_float own_environ a made

  -- `OsBackup`, with the readers of the backup's output and the daemon's first locale variables.
  unfoldable pub os_backup :
      (String → String → Option JobError)
      → (String → String → Option (ProgressInfo Carrier))
      → List String
      → String
      → Answers
      → AptSystem Carrier
      → Ran Carrier
  os_backup read_error read_progress locale_envs id a s =
      elim (make id backup_job [] (some (read_environ locale_envs ((remount, "false") ∷ []))) s) [
        | none ↦ none
        | some (s', p) ↦
            let c : Command Carrier = s'.commands p in
            start_made fl parse_float own_environ a (
              some (
                indicate
                    (record (report fl id running (lit 0 0) false none) { reset_progress = true })
                    (put_command p
                      (record c {
                        parse_job_error = read_error;
                        parse_progress_info = read_progress;
                      })
                      s'),
                p,
              ))
      ]
