-- ===== src/Apt.antt =====
-- The package manager apt (src/internal/system/apt/apt.go, proxy.go): the names of packages that are
-- let through, the command lines, and what the messages of apt-get mean.
pub mod Names
pub mod Messages
pub mod Operations
pub mod Requests
pub mod Arguments
pub mod Safety
pub mod Injection
pub mod Stale
pub mod Examples
use Prim.Native.Char.{Char, code}
use Prim.Native.String.{◌++◌ as text_append, slice, len}
use text.Mathlib.Text.{find?}
use lastore_daemon.Base.{
  ℕ, suc, Bool, true, false, not, ◌&&◌, ◌||◌, List, [], ◌∷◌, ◌++◌, Option, none, some, String,
  str_eq, ◌==◌, leb, if◌then◌else◌, ◌+◌,
}
use lastore_daemon.Base.Assoc.{Assoc}
use lastore_daemon.Base.Float.{Float}
use lastore_daemon.System.{
  JobError, download_job, install_job, remove_job, dist_upgrade_job, prepare_dist_upgrade_job,
  update_source_job, clean_job, fix_error_job, backup_job, incremental_download_job,
}
use lastore_daemon.Command.{contains, join, made_error}

is_lower_digit : Char → Bool
is_lower_digit c = (leb 97 (code c) && leb (code c) 122) || (leb 48 (code c) && leb (code c) 57)

is_alnum : Char → Bool
is_alnum c = is_lower_digit c || (leb 65 (code c) && leb (code c) 90)

-- The characters `+`, `.` and `-` beside those of a first place.
is_name_char : Char → Bool
is_name_char c = is_lower_digit c || code c == 43 || code c == 46 || code c == 45

is_arch_char : Char → Bool
is_arch_char c = is_alnum c || code c == 45

-- The characters `.`, `+`, `~`, `:`, `*` and `-` beside letters and digits.
is_version_char : Char → Bool
is_version_char c =
    is_alnum c
    || code c == 46
    || code c == 43
    || code c == 126
    || code c == 58
    || code c == 42
    || code c == 45

unfoldable skip : (Char → Bool) → String → String
skip p String.[] = String.[]
skip p (String.◌∷◌ c s) = let rest = skip p s in if p c then rest else String.◌∷◌ c s

begins : (Char → Bool) → String → Bool
begins p String.[] = false
begins p (String.◌∷◌ c s) = p c

is_empty : String → Bool
is_empty String.[] = true
is_empty (String.◌∷◌ c s) = false

-- The end of the expression, `(=version)?$`.
matches_version : String → Bool
unfolding skip begins is_empty is_version_char is_alnum is_lower_digit
matches_version String.[] = true
matches_version (String.◌∷◌ c s) =
    code c == 61 && begins is_version_char s && is_empty (skip is_version_char s)

-- `(:arch)?(=version)?$`
matches_arch : String → Bool
unfolding matches_version is_arch_char
matches_arch String.[] = true
matches_arch (String.◌∷◌ c s) =
    if code c == 58
    then begins is_arch_char s && matches_version (skip is_arch_char s)
    else matches_version (String.◌∷◌ c s)

-- `pkgNameRegexp.MatchString`
unfoldable pub is_pkg_name : String → Bool
unfolding matches_arch is_name_char
is_pkg_name String.[] = false
is_pkg_name (String.◌∷◌ c s) = is_lower_digit c && matches_arch (skip is_name_char s)

-- Whether there is no error.
unfoldable pub validate_package_names : List String → Bool
unfolding is_pkg_name
validate_package_names [] = true
validate_package_names (pkg ∷ packages) = is_pkg_name pkg && validate_package_names packages

abbrev pub assign : String → String → String
assign key value = text_append key (text_append "=" value)

unfoldable pub option_to_args : Assoc String → List String
option_to_args [] = []
option_to_args ((key, value) ∷ options) = "-o" ∷ assign key value ∷ option_to_args options

abbrev pub incremental_update_job : String
incremental_update_job = "incremental_update"

abbrev pub common_conf : List String
common_conf = "-c" ∷ "/var/lib/lastore/apt_v2_common.conf" ∷ []

abbrev pub immutable_ctl : String
immutable_ctl = "/usr/sbin/deepin-immutable-ctl"

abbrev tail_args : List String → List String
tail_args [] = []
tail_args (a ∷ args) = args

-- The command line of a job to fix an error; none is a panic. `base` are the options so far.
unfoldable pub fix_command : List String → List String → Option (String × List String)
fix_command base [] = none
fix_command base (err_type ∷ options) =
    if str_eq err_type "dpkgInterrupted"
    then some ("/usr/bin/apt-get", "-y" ∷ (common_conf ++ ("-f" ∷ "install" ∷ join options ∷ [])))
    else if str_eq err_type "dependenciesBroken"
    then some ("apt-get", base ++ (common_conf ++ ("-f" ∷ "install" ∷ options)))
    else none

-- The options for all types: the two entries of the map may come in either order.
abbrev base_args : String → List String
base_args cmd_type =
    if str_eq cmd_type download_job || str_eq cmd_type prepare_dist_upgrade_job
    then "-y" ∷ "-m" ∷ "-o" ∷ "APT::Status-Fd=3" ∷ "-o" ∷ "Debug::NoLocking=1" ∷ []
    else "-y" ∷ "-o" ∷ "APT::Status-Fd=3" ∷ []

-- `createCommandLine`: the program and its arguments; none is a panic.
unfoldable pub create_command_line : String → List String → Option (String × List String)
unfolding fix_command
create_command_line cmd_type cmd_args =
    let base = base_args cmd_type in
    let apt = base ++ common_conf in
    if str_eq cmd_type install_job
    then some ("apt-get", apt ++ ("install" ∷ cmd_args))
    else if str_eq cmd_type prepare_dist_upgrade_job
    then some
        ("apt-get", apt ++ ("dist-upgrade" ∷ "-d" ∷ "--allow-change-held-packages" ∷ cmd_args))
    else if str_eq cmd_type dist_upgrade_job
    then some (
      "apt-get",
      apt ++ ("--allow-downgrades" ∷ "--allow-change-held-packages" ∷ "dist-upgrade" ∷ cmd_args),
    )
    else if str_eq cmd_type remove_job
    then some ("apt-get", apt ++ ("autoremove" ∷ "--allow-change-held-packages" ∷ cmd_args))
    else if str_eq cmd_type download_job
    then some ("apt-get", apt ++ ("install" ∷ "-d" ∷ "--allow-change-held-packages" ∷ cmd_args))
    else if str_eq cmd_type update_source_job
    then some (
      "/usr/bin/apt-get",
      base ++ (cmd_args ++ ("-o" ∷ "APT::Status-Fd=3" ∷ "update" ∷ "--fix-missing" ∷ [])),
    )
    else if str_eq cmd_type clean_job
    then some ("/usr/bin/lastore-apt-clean", [])
    else if str_eq cmd_type backup_job
    then some (immutable_ctl, "admin" ∷ "deploy" ∷ "--backup" ∷ "-j" ∷ "-w" ∷ [])
    else if str_eq cmd_type incremental_download_job
    then some (immutable_ctl, "upgrade" ∷ "--download-only" ∷ "--status-fd" ∷ "3" ∷ cmd_args)
    else if str_eq cmd_type incremental_update_job
    then some (immutable_ctl, "upgrade" ∷ "--status-fd" ∷ "3" ∷ cmd_args)
    else if str_eq cmd_type fix_error_job
    then fix_command base cmd_args
    else some ("apt-get", base)

-- The text from the place where a mark begins, or all of it where the mark is missing. `skipped` is
-- how much of the mark is left out.
abbrev pub text_from : String → ℕ → String → String
text_from mark skipped text = elim (find? text mark) [
  | none ↦ text
  | some i ↦ slice text (i + skipped) (len text)
]

unmet_mark : String
unmet_mark = "The following packages have unmet dependencies:"

-- `parsePkgSystemError`
unfoldable pub parse_pkg_system_error : String → String → Option JobError
unfolding unmet_mark is_empty
parse_pkg_system_error out err =
    if is_empty err
    then none
    else if contains err "dpkg was interrupted"
    then some (made_error "dpkgInterrupted" err)
    else if contains err "Unmet dependencies" || contains err "generated breaks"
    then some (made_error "dependenciesBroken" (text_from unmet_mark 0 out))
    else if contains err "The list of sources could not be read"
    then some (made_error "invalidSourceList" err)
    else some (made_error "ErrorUnknown" (text_append out err))
