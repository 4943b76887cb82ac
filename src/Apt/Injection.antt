-- ===== src/Apt/Injection.antt =====
-- The names of packages cannot add an option to a command, for each request
-- (src/internal/system/apt/proxy.go).
use lastore_daemon.Base.{
  ℕ, Bool, true, false, List, [], ◌∷◌, ◌++◌, Option, some, String, str_eq, if◌then◌else◌, keep, ◌≡◌,
  refl, Option-cases, Bool-cases, inl, inr, sym, subst,
}
use lastore_daemon.Base.Assoc.{Assoc}
use lastore_daemon.Base.Float.{Float}
use lastore_daemon.System.{
  download_job, install_job, remove_job, dist_upgrade_job, prepare_dist_upgrade_job,
  incremental_download_job,
}
use lastore_daemon.Command.{AptSystem}
use lastore_daemon.Apt.{
  validate_package_names, option_to_args, create_command_line, incremental_update_job, common_conf,
}
use lastore_daemon.Apt.Operations.{
  Answers, Ran, speed_args, upgrade_arg_string, check_pkg_system_error, start_made, safe_start,
}
use lastore_daemon.Apt.Requests.{
  download_packages, download_source, remove, install, dist_upgrade, upgrade, make_with, make,
  remount, upgrade_option,
}
use lastore_daemon.Apt.Arguments.{is_option, make_command-Made}
use lastore_daemon.Apt.Safety.{
  Kind, request, HasOptions, plain_options, start_made-HasOptions, checked-HasOptions,
  options_front, options_back, start_with-HasOptions, check-num_commands, check-incremental_update,
}

module _ (fl : Float) (parse_float : String → Option fl.Carrier) (own_environ : List String) where
  abbrev Safe : Kind → Bool → Assoc String → ℕ → Ran fl.Carrier → Type 0
  Safe kind incremental args =
      HasOptions fl parse_float own_environ
        (plain_options fl parse_float own_environ kind incremental args)

  module _ (id : String) (packages : List String) (vars : Option (Assoc String))
      (args : Assoc String) (a : Answers) (valid : validate_package_names packages ≡ true) where
    made_front :
        (cmd_type path : String) (prefix : List String) (s : AptSystem fl.Carrier)
        → create_command_line cmd_type (packages ++ option_to_args args)
          ≡ some (path, prefix ++ (packages ++ option_to_args args))
        → HasOptions fl parse_float own_environ
            (keep is_option (prefix ++ option_to_args args))
            s.num_commands
            (start_made fl parse_float own_environ a (
              make fl parse_float own_environ id cmd_type (packages ++ option_to_args args) vars s))
    made_front cmd_type path prefix s e =
        subst
          (λ l. HasOptions fl parse_float own_environ l s.num_commands (
            start_made fl parse_float own_environ a (
              make fl parse_float own_environ id cmd_type (packages ++ option_to_args args) vars
                s)))
          (options_front fl parse_float own_environ prefix packages (option_to_args args) valid)
          (start_made-HasOptions fl parse_float own_environ a _ s _ (
            make_command-Made fl parse_float own_environ id cmd_type
              (packages ++ option_to_args args) vars s path _ e))

    made_back :
        (key value cmd_type path : String) (prefix rest : List String) (s : AptSystem fl.Carrier)
        → create_command_line cmd_type (rest ++ packages)
          ≡ some (path, prefix ++ (rest ++ packages))
        → HasOptions fl parse_float own_environ (keep is_option (prefix ++ rest)) s.num_commands (
            safe_start fl parse_float own_environ a (
              make_with fl parse_float own_environ key value id cmd_type (rest ++ packages) vars s))
    made_back key value cmd_type path prefix rest s e =
        subst
          (λ l. HasOptions fl parse_float own_environ l s.num_commands (
            safe_start fl parse_float own_environ a (
              make_with fl parse_float own_environ key value id cmd_type (rest ++ packages) vars
                s)))
          (options_back fl parse_float own_environ prefix packages rest valid)
          (start_with-HasOptions fl parse_float own_environ a key value id cmd_type
            (rest ++ packages) vars s path _ e).1

  abbrev with_apt : List String → List String
  with_apt rest = "-y" ∷ "-o" ∷ "APT::Status-Fd=3" ∷ (common_conf ++ rest)

  abbrev with_download : List String → List String
  with_download rest =
      "-y" ∷ "-m" ∷ "-o" ∷ "APT::Status-Fd=3" ∷ "-o" ∷ "Debug::NoLocking=1" ∷ (common_conf ++ rest)

  -- The two forms of an upgrade.
  abbrev upgrade_incremental :
      String
      → Option (Assoc String)
      → Assoc String
      → Answers
      → AptSystem fl.Carrier
      → Ran fl.Carrier
  upgrade_incremental id vars args a s = start_made fl parse_float own_environ a (
      make_with fl parse_float own_environ upgrade_option (upgrade_arg_string args) id
        incremental_update_job (speed_args args) vars s)

  abbrev upgrade_plain :
      String
      → List String
      → Option (Assoc String)
      → Assoc String
      → Answers
      → AptSystem fl.Carrier
      → Ran fl.Carrier
  upgrade_plain id packages vars args a s = safe_start fl parse_float own_environ a (
      make_with fl parse_float own_environ remount "false" id dist_upgrade_job
        (option_to_args args ++ packages) vars s)

  upgrade-Safe :
      (id : String) (packages : List String) (vars : Option (Assoc String)) (args : Assoc String)
      (a : Answers) (s : AptSystem fl.Carrier) (incremental : Bool)
      → validate_package_names packages ≡ true
      → s.incremental_update ≡ incremental
      → Safe Kind.upgrades incremental args s.num_commands
          (upgrade fl parse_float own_environ id packages vars args a s)
  unfolding create_command_line
  upgrade-Safe id packages vars args a s true valid e =
      subst
        (λ b. Safe Kind.upgrades true args s.num_commands (
          if b
          then upgrade_incremental id vars args a s
          else upgrade_plain id packages vars args a s))
        (sym e)
        (start_with-HasOptions fl parse_float own_environ a upgrade_option (upgrade_arg_string args)
          id incremental_update_job (speed_args args) vars s _ _ refl).0
  upgrade-Safe id packages vars args a s false valid e =
      subst
        (λ b. Safe Kind.upgrades false args s.num_commands (
          if b
          then upgrade_incremental id vars args a s
          else upgrade_plain id packages vars args a s))
        (sym e)
        (made_back id packages vars args a valid remount "false" dist_upgrade_job "apt-get"
          (with_apt ("--allow-downgrades" ∷ "--allow-change-held-packages" ∷ "dist-upgrade" ∷ []))
          (option_to_args args) s refl)

  -- The command of `DownloadSource` in its two forms.
  abbrev source_command :
      Bool
      → String
      → List String
      → Option (Assoc String)
      → Assoc String
      → AptSystem fl.Carrier
      → Option (AptSystem fl.Carrier × ℕ)
  source_command b id packages vars args s =
      if b
      then make_with fl parse_float own_environ upgrade_option (upgrade_arg_string args) id
          incremental_download_job (speed_args args) vars s
      else make fl parse_float own_environ id prepare_dist_upgrade_job
          (packages ++ option_to_args args) vars s

  source_command-Safe :
      (b : Bool) (id : String) (packages : List String) (vars : Option (Assoc String))
      (args : Assoc String) (a : Answers) (s : AptSystem fl.Carrier)
      → validate_package_names packages ≡ true
      → Safe Kind.downloads_source b args s.num_commands
          (start_made fl parse_float own_environ a (source_command b id packages vars args s))
  unfolding create_command_line
  source_command-Safe true id packages vars args a s valid =
      (start_with-HasOptions fl parse_float own_environ a upgrade_option (upgrade_arg_string args)
        id incremental_download_job (speed_args args) vars s _ _ refl).0
  source_command-Safe false id packages vars args a s valid =
      made_front id packages vars args a valid prepare_dist_upgrade_job "apt-get"
        (with_download ("dist-upgrade" ∷ "-d" ∷ "--allow-change-held-packages" ∷ [])) s refl

  -- An upgrade after the check.
  checked_upgrade-Safe :
      (id : String) (packages : List String) (vars : Option (Assoc String)) (args : Assoc String)
      (a : Answers) (s : AptSystem fl.Carrier)
      → validate_package_names packages ≡ true
      → Safe Kind.upgrades s.incremental_update args s.num_commands (
          upgrade fl parse_float own_environ id packages vars args a
            (check_pkg_system_error fl parse_float own_environ true a.check s).0)
  checked_upgrade-Safe id packages vars args a s valid =
      let s' = (check_pkg_system_error fl parse_float own_environ true a.check s).0 in
      subst
        (λ n.
          Safe Kind.upgrades s.incremental_update args n
            (upgrade fl parse_float own_environ id packages vars args a s'))
        (check-num_commands fl parse_float own_environ true a.check s)
        (upgrade-Safe id packages vars args a s' s.incremental_update valid
          (check-incremental_update fl parse_float own_environ true a.check s))

  dist_upgrade-Safe :
      (id : String) (packages : List String) (vars : Option (Assoc String)) (args : Assoc String)
      (a : Answers) (s : AptSystem fl.Carrier)
      → validate_package_names packages ≡ true
      → Safe Kind.upgrades s.incremental_update args s.num_commands
          (dist_upgrade fl parse_float own_environ id packages vars args a s)
  unfolding dist_upgrade
  dist_upgrade-Safe id packages vars args a s valid =
      let r = check_pkg_system_error fl parse_float own_environ true a.check s in
      let safe = checked_upgrade-Safe id packages vars args a s valid in
      elim (Option-cases r.1) [
        | inl e ↦ rw (valid, dist_upgrade, if◌then◌else◌, e) safe
        | inr (error, e) ↦ elim (Bool-cases (str_eq error.err_type "dependenciesBroken")) [
          | inl broken ↦ rw (valid, dist_upgrade, if◌then◌else◌, e, broken) safe
          | inr other ↦
              rw (valid, dist_upgrade, if◌then◌else◌, e, other)
                (inl (check-num_commands fl parse_float own_environ true a.check s))
        ]
      ]

  -- Whatever packages a request names, with whatever variables, options and answers of the outside:
  -- it panics, or makes no command, or the arguments of the command that it makes are, as far as they
  -- begin with a dash, exactly those of the request that names no package.
  pub request-HasOptions :
      (kind : Kind) (id : String) (packages : List String) (vars : Option (Assoc String))
      (args : Assoc String) (a : Answers) (s : AptSystem fl.Carrier)
      → HasOptions fl parse_float own_environ
          (plain_options fl parse_float own_environ kind s.incremental_update args)
          s.num_commands
          (request fl parse_float own_environ kind id packages vars args a s)
  unfolding request create_command_line download_packages download_source remove install
      dist_upgrade
  request-HasOptions Kind.downloads id packages vars args a s =
      elim (Bool-cases (validate_package_names packages)) [
        | inr n ↦ rw (n, download_packages, if◌then◌else◌) (inl refl)
        | inl valid ↦
            rw (valid, download_packages, if◌then◌else◌)
              (checked-HasOptions fl parse_float own_environ _ false a _ s (λ s'.
                made_front id packages vars args a valid download_job "apt-get"
                  (with_download ("install" ∷ "-d" ∷ "--allow-change-held-packages" ∷ [])) s' refl))
      ]
  request-HasOptions Kind.downloads_source id packages vars args a s =
      elim (Bool-cases (validate_package_names packages)) [
        | inr n ↦ rw (n, download_source, if◌then◌else◌) (inl refl)
        | inl valid ↦
            rw (valid, download_source, if◌then◌else◌)
              (source_command-Safe s.incremental_update id packages vars args a s valid)
      ]
  request-HasOptions Kind.removes id packages vars args a s =
      elim (Bool-cases (validate_package_names packages)) [
        | inr n ↦ rw (n, remove, if◌then◌else◌) (inl refl)
        | inl valid ↦
            rw (valid, remove, if◌then◌else◌)
              (checked-HasOptions fl parse_float own_environ _ true a _ s (λ s'.
                made_back id packages vars args a valid remount "false" remove_job "apt-get"
                  (with_apt ("autoremove" ∷ "--allow-change-held-packages" ∷ [])) [] s' refl))
      ]
  request-HasOptions Kind.installs id packages vars args a s =
      elim (Bool-cases (validate_package_names packages)) [
        | inr n ↦ rw (n, install, if◌then◌else◌) (inl refl)
        | inl valid ↦
            rw (valid, install, if◌then◌else◌)
              (checked-HasOptions fl parse_float own_environ _ true a _ s (λ s'.
                made_back id packages vars args a valid remount "false" install_job "apt-get"
                  (with_apt ("install" ∷ [])) (option_to_args args) s' refl))
      ]
  request-HasOptions Kind.upgrades id packages vars args a s =
      elim (Bool-cases (validate_package_names packages)) [
        | inr n ↦ rw (n, dist_upgrade, if◌then◌else◌) (inl refl)
        | inl valid ↦ dist_upgrade-Safe id packages vars args a s valid
      ]
