-- ===== src/Apt/Arguments.antt =====
-- The arguments that a command is started with (src/internal/system/apt/apt.go, proxy.go).
use Prim.Native.Char.{code}
use lastore_daemon.Base.{
  ℕ, Bool, true, false, List, [], ◌∷◌, ◌++◌, Option, none, some, String, ◌==◌, ==_iff,
  if◌then◌else◌, keep, ◌≡◌, refl, arith, ◌∙◌, ap,
}
use lastore_daemon.Base.Assoc.{Assoc}
use lastore_daemon.Base.Float.{Float}
use lastore_daemon.Command.{Command, AptSystem, put_command, add_cmd}
use lastore_daemon.Command.Env.{set_env}
use lastore_daemon.Apt.{is_pkg_name, is_lower_digit, validate_package_names, create_command_line}
use lastore_daemon.Apt.Operations.{new_apt_command, make_command}

-- An argument that apt-get takes for an option.
unfoldable pub is_option : String → Bool
is_option String.[] = false
is_option (String.◌∷◌ c s) = code c == 45

is_pkg_name-is_option : (pkg : String) → is_pkg_name pkg ≡ true → is_option pkg ≡ false
unfolding is_pkg_name is_option is_lower_digit
is_pkg_name-is_option String.[] h = refl
is_pkg_name-is_option (String.◌∷◌ c s) h = ground arith

-- The names of packages that are let through are not options.
pub keep-packages :
    (packages : List String) → validate_package_names packages ≡ true → keep is_option packages ≡ []
unfolding validate_package_names
keep-packages [] h = refl
keep-packages (pkg ∷ packages) h = ground (arith, is_pkg_name-is_option pkg, keep-packages packages)

pub keep-append {ℓ} :
    {A : Type ℓ} (p : A → Bool) (xs ys : List A) → keep p (xs ++ ys) ≡ keep p xs ++ keep p ys
keep-append p [] ys = refl
keep-append p (x ∷ xs) ys = ground (arith, keep-append p xs ys)

module _ {F : Type 0} where
  put_command_self : (p : ℕ) (c : Command F) (s : AptSystem F) → (put_command p c s).commands p ≡ c
  put_command_self p c s = ap (λ b. if b then c else s.commands p) ((==_iff p p).1 refl)

  add_cmd-commands : (p : ℕ) (s : AptSystem F) → (add_cmd p s).commands ≡ s.commands
  unfolding add_cmd
  add_cmd-commands p s = ground arith

  set_env-args :
      (environ : List String) (vars : Option (Assoc String)) (c : Command F)
      → (set_env environ vars c).args ≡ c.args
  unfolding set_env
  set_env-args environ none c = refl
  set_env-args environ (some vars) c = refl

module _ (fl : Float) (parse_float : String → Option fl.Carrier) (own_environ : List String) where
  -- A command that is made has the arguments of its command line.
  abbrev pub Made : List String → AptSystem fl.Carrier → Option (AptSystem fl.Carrier × ℕ) → Type 0
  Made args s o =
      (s' : AptSystem fl.Carrier) × (o ≡ some (s', s.num_commands))
      × ((s'.commands s.num_commands).args ≡ args)

  new_apt_command-Made :
      (id cmd_type : String) (cmd_args : List String) (s : AptSystem fl.Carrier) (path : String)
      (args : List String)
      → create_command_line cmd_type cmd_args ≡ some (path, args)
      → Made args s (new_apt_command fl parse_float own_environ id cmd_type cmd_args s)
  unfolding new_apt_command
  new_apt_command-Made id cmd_type cmd_args s path args e =
      rw (e, new_apt_command)
        (
          _,
          refl,
          ap (λ f. (f s.num_commands).args) (add_cmd-commands s.num_commands _)
              ∙ ap (λ c. c.args) (put_command_self s.num_commands _ s),
        )

  pub make_command-Made :
      (id cmd_type : String) (cmd_args : List String) (vars : Option (Assoc String))
      (s : AptSystem fl.Carrier) (path : String) (args : List String)
      → create_command_line cmd_type cmd_args ≡ some (path, args)
      → Made args s (make_command fl parse_float own_environ id cmd_type cmd_args vars s)
  unfolding make_command
  make_command-Made id cmd_type cmd_args vars s path args e =
      let (s', q, a) = new_apt_command-Made id cmd_type cmd_args s path args e in
      let p = s.num_commands in
      (
        put_command p (set_env own_environ vars (s'.commands p)) s',
        ap
            (λ o. elim o [
              | none ↦ none
              | some (s', p) ↦ some (put_command p (set_env own_environ vars (s'.commands p)) s', p)
            ])
            q,
        ap (λ c. c.args) (put_command_self p (set_env own_environ vars (s'.commands p)) s')
            ∙ set_env-args own_environ vars (s'.commands p)
            ∙ a,
      )
