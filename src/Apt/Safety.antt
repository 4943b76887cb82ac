-- ===== src/Apt/Safety.antt =====
-- The names of packages cannot add an option to a command (src/internal/system/apt/proxy.go).
use mathlib.Core.List.{append-nil}
use lastore_daemon.Base.{
  ℕ, Bool, true, false, List, [], ◌++◌, Option, none, some, String, keep, ◌≡◌, refl, arith,
  Option-cases, inl, inr, ◌∙◌, ap, sym, subst, ◌⊎◌,
}
use lastore_daemon.Base.Assoc.{Assoc, insert}
use lastore_daemon.Base.Float.{Float}
use lastore_daemon.System.{
  job_error, download_job, install_job, remove_job, dist_upgrade_job, prepare_dist_upgrade_job,
  incremental_download_job,
}
use lastore_daemon.Command.{AptSystem, indicate, start_command}
use lastore_daemon.Apt.{
  validate_package_names, option_to_args, create_command_line, incremental_update_job,
}
use lastore_daemon.Apt.Operations.{
  Answers, Ran, Output, speed_args, check_pkg_system_error, start_made, safe_start,
}
use lastore_daemon.Apt.Requests.{
  download_packages, download_source, remove, install, dist_upgrade, make_with, checked,
}
use lastore_daemon.Apt.Arguments.{is_option, keep-packages, keep-append, Made, make_command-Made}

-- The requests that name packages.
pub data Kind : Type 0 where
  downloads downloads_source removes installs upgrades : Kind

module _ (fl : Float) (parse_float : String → Option fl.Carrier) (own_environ : List String) where
  unfoldable pub request :
      Kind
      → String
      → List String
      → Option (Assoc String)
      → Assoc String
      → Answers
      → AptSystem fl.Carrier
      → Ran fl.Carrier
  request Kind.downloads = download_packages fl parse_float own_environ
  request Kind.downloads_source = download_source fl parse_float own_environ
  request Kind.removes = λ id packages vars args. remove fl parse_float own_environ id packages vars
  request Kind.installs = install fl parse_float own_environ
  request Kind.upgrades = dist_upgrade fl parse_float own_environ

  -- The type of the command and its arguments but for the packages.
  abbrev pub plain_line : Kind → Bool → Assoc String → String × List String
  plain_line Kind.downloads incremental args = (download_job, option_to_args args)
  plain_line Kind.downloads_source true args = (incremental_download_job, speed_args args)
  plain_line Kind.downloads_source false args = (prepare_dist_upgrade_job, option_to_args args)
  plain_line Kind.removes incremental args = (remove_job, [])
  plain_line Kind.installs incremental args = (install_job, option_to_args args)
  plain_line Kind.upgrades true args = (incremental_update_job, speed_args args)
  plain_line Kind.upgrades false args = (dist_upgrade_job, option_to_args args)

  -- The options of a request that names no package.
  abbrev pub plain_options : Kind → Bool → Assoc String → List String
  plain_options kind incremental args =
      let (cmd_type, line) = plain_line kind incremental args in
      elim (create_command_line cmd_type line) [ none ↦ [] | some (path, l) ↦ keep is_option l ]

  -- The options of the command that a run makes, if it makes one; `n` commands were made before.
  abbrev pub HasOptions : List String → ℕ → Ran fl.Carrier → Type 0
  HasOptions options n none = n ≡ n
  HasOptions options n (some (s', error)) =
      (s'.num_commands ≡ n) ⊎ (keep is_option (s'.commands n).args ≡ options)

  start_command-args :
      (a : Answers) (p : ℕ) (s : AptSystem fl.Carrier)
      → ((start_command fl a.pipes a.start p s).0.commands p).args ≡ (s.commands p).args
  unfolding start_command indicate
  start_command-args a p s = ground arith

  pub start_made-HasOptions :
      (a : Answers) (args : List String) (s : AptSystem fl.Carrier)
      (o : Option (AptSystem fl.Carrier × ℕ))
      → Made fl parse_float own_environ args s o
      → HasOptions (keep is_option args) s.num_commands (start_made fl parse_float own_environ a o)
  unfolding start_made
  start_made-HasOptions a args s o (s', e, h) =
      subst
        (λ o.
          HasOptions (keep is_option args) s.num_commands
            (start_made fl parse_float own_environ a o))
        (sym e) (inr (ap (keep is_option) (start_command-args a s.num_commands s' ∙ h)))

  pub safe_start-HasOptions :
      (a : Answers) (args : List String) (s : AptSystem fl.Carrier)
      (o : Option (AptSystem fl.Carrier × ℕ))
      → Made fl parse_float own_environ args s o
      → HasOptions (keep is_option args) s.num_commands (safe_start fl parse_float own_environ a o)
  unfolding safe_start
  safe_start-HasOptions a args s o (s', e, h) =
      subst
        (λ o.
          HasOptions (keep is_option args) s.num_commands
            (safe_start fl parse_float own_environ a o))
        (sym e) (inr (ap (keep is_option) h))

  pub check-num_commands :
      (lock : Bool) (o : Output) (s : AptSystem fl.Carrier)
      → (check_pkg_system_error fl parse_float own_environ lock o s).0.num_commands ≡ s.num_commands
  unfolding check_pkg_system_error indicate
  check-num_commands lock o s = ground arith

  pub check-incremental_update :
      (lock : Bool) (o : Output) (s : AptSystem fl.Carrier)
      → (check_pkg_system_error fl parse_float own_environ lock o s).0.incremental_update
        ≡ s.incremental_update
  unfolding check_pkg_system_error indicate
  check-incremental_update lock o s = ground arith

  pub checked-HasOptions :
      (options : List String) (lock : Bool) (a : Answers)
      (go : AptSystem fl.Carrier → Ran fl.Carrier) (s : AptSystem fl.Carrier)
      → ((s' : AptSystem fl.Carrier) → HasOptions options s'.num_commands (go s'))
      → HasOptions options s.num_commands (checked fl parse_float own_environ lock a go s)
  checked-HasOptions options lock a go s h =
      let r = check_pkg_system_error fl parse_float own_environ lock a.check s in
      let n = check-num_commands lock a.check s in
      elim (Option-cases r.1) [
        | inl e ↦
            subst
              (λ o.
                HasOptions options s.num_commands
                  (elim o [ some e ↦ some (r.0, some (job_error e)) | none ↦ go r.0 ]))
              (sym e) (subst (λ n. HasOptions options n (go r.0)) n (h r.0))
        | inr (error, e) ↦
            subst
              (λ o.
                HasOptions options s.num_commands
                  (elim o [ some e ↦ some (r.0, some (job_error e)) | none ↦ go r.0 ]))
              (sym e) (inl n)
      ]

  -- Packages before or after the other arguments add no options.
  pub options_front :
      (prefix packages rest : List String)
      → validate_package_names packages ≡ true
      → keep is_option (prefix ++ (packages ++ rest)) ≡ keep is_option (prefix ++ rest)
  options_front prefix packages rest h =
      keep-append is_option prefix (packages ++ rest)
      ∙ ap (λ l. keep is_option prefix ++ l)
          (keep-append is_option packages rest
            ∙ ap (λ l. l ++ keep is_option rest) (keep-packages packages h))
      ∙ sym (keep-append is_option prefix rest)

  pub options_back :
      (prefix packages rest : List String)
      → validate_package_names packages ≡ true
      → keep is_option (prefix ++ (rest ++ packages)) ≡ keep is_option (prefix ++ rest)
  options_back prefix packages rest h =
      keep-append is_option prefix (rest ++ packages)
      ∙ ap (λ l. keep is_option prefix ++ l)
          (keep-append is_option rest packages
            ∙ ap (λ l. keep is_option rest ++ l) (keep-packages packages h)
            ∙ append-nil (keep is_option rest))
      ∙ sym (keep-append is_option prefix rest)

  -- A command with an entry more in its variables, started in either way.
  pub start_with-HasOptions :
      (a : Answers) (key value id cmd_type : String) (cmd_args : List String)
      (vars : Option (Assoc String)) (s : AptSystem fl.Carrier) (path : String) (args : List String)
      → create_command_line cmd_type cmd_args ≡ some (path, args)
      → HasOptions (keep is_option args) s.num_commands (
          start_made fl parse_float own_environ a
            (make_with fl parse_float own_environ key value id cmd_type cmd_args vars s))
        × HasOptions (keep is_option args) s.num_commands (
            safe_start fl parse_float own_environ a
              (make_with fl parse_float own_environ key value id cmd_type cmd_args vars s))
  unfolding start_made safe_start
  start_with-HasOptions a key value id cmd_type cmd_args none s path args e = (refl, refl)
  start_with-HasOptions a key value id cmd_type cmd_args (some v) s path args e =
      let made =
        make_command-Made fl parse_float own_environ id cmd_type cmd_args
          (some (insert key value v)) s path args e in
      (start_made-HasOptions a args s _ made, safe_start-HasOptions a args s _ made)
