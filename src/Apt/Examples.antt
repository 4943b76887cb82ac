-- ===== src/Apt/Examples.antt =====
-- Tests of commands and of the package manager apt, and their theorems at concrete systems
-- (src/internal/system/command.go, src/internal/system/apt).
use lastore_daemon.Base.{
  ℕ, true, false, List, [], ◌∷◌, Option, none, some, String, if◌then◌else◌, ◌≡◌, ◌↔◌, refl,
}
use lastore_daemon.Base.Assoc.{lookup}
use lastore_daemon.System.{failed, paused, Error, message, clean_job}
use lastore_daemon.Job.Examples.{milli}
use lastore_daemon.Command.{
  Command, AptSystem, AtExit, find_cmd, abort_command, start_command, wait, made_error,
}
use lastore_daemon.Command.Env.{is_allowed, set_env}
use lastore_daemon.Command.Exit.{statuses}
use lastore_daemon.Command.Reported.{wait-end_status, abort_command-paused}
use lastore_daemon.Command.Variables.{variable, or_else, set_env-variable}
use lastore_daemon.Apt.{is_pkg_name, create_command_line}
use lastore_daemon.Apt.Names.{Specifier, is_specifier, specifier_text, is_pkg_name-is_specifier}
use lastore_daemon.Apt.Messages.{job_error_of, parse_job_error, four_parts}
use lastore_daemon.Apt.Operations.{Answers, new_apt_command, make_command, start_made}
use lastore_daemon.Apt.Requests.{abort}
use lastore_daemon.Apt.Safety.{Kind, request, HasOptions, plain_options}
use lastore_daemon.Apt.Injection.{request-HasOptions}
use lastore_daemon.Apt.Stale.{start_made-abort}

names :
    (is_pkg_name "libc6:amd64=2.31-0+deb~1" ≡ true)
    × (is_pkg_name "vim-tiny" ≡ true)
    × (is_pkg_name "--purge" ≡ false)
    × (is_pkg_name "vim:" ≡ false)
    × (is_pkg_name "vim=1 -o" ≡ false)
unfolding is_pkg_name
names = (refl, refl, refl, refl, refl)

dpkg_error :
    job_error_of "E: Sub-process /usr/bin/dpkg returned an error code (1)" "Setting up\ndpkg: error"
    ≡ made_error "dpkgError" "dpkg: error"
unfolding job_error_of
dpkg_error = refl

parts : four_parts "dlstatus:1:20.5:Get: 1" ≡ some ("dlstatus", "1", "20.5", "Get: 1")
unfolding four_parts
parts = refl

abbrev command : Command ℕ
command = record {
  job_id = "install";
  cancelable = true;
  path = "apt-get";
  args = "-y" ∷ [];
  started = true;
  env = none;
  exit_code = 0;
  stdout = "";
  stderr = "Unable to locate package vim";
  parse_progress_info = λ id line. none;
  parse_job_error = parse_job_error;
  at_exit_fn = AtExit.no_fn;
}

abbrev system : AptSystem ℕ
system = record {
  commands = λ p. command;
  num_commands = 1;
  cmd_set = ("install", 0) ∷ [];
  indicated = [];
  incremental_update = false;
}

parsed :
    parse_job_error "Unable to locate package vim" ""
    ≡ some (made_error "pkgNotFound" "Unable to locate package vim")
unfolding parse_job_error job_error_of
parsed = refl

wait-end_status_example :
    (statuses (wait milli true 0 system).indicated ≡ failed ∷ [])
    × (find_cmd "install" (wait milli true 0 system) ≡ none)
wait-end_status_example =
    wait-end_status milli 0 system true (made_error "pkgNotFound" "Unable to locate package vim")
      parsed

abort_command-paused_example :
    ((abort_command false (some (message "no such process")) 0 system).1
      ≡ some (message "no such process"))
    × (statuses
          (wait milli false 0
            (abort_command false (some (message "no such process")) 0 system).0).indicated
        ≡ paused ∷ [])
abort_command-paused_example =
    abort_command-paused milli 0 system (some (message "no such process")) false refl refl

abbrev environ : List String
environ = "PATH=/bin" ∷ "LD_PRELOAD=" ∷ []

set_env-variable_example :
    (env : List String) × ((set_env environ (some (("LD_PRELOAD", "/tmp/x.so") ∷ [])) command).env
      ≡ some env)
    × (variable "LD_PRELOAD" env ≡ (
        if is_allowed "LD_PRELOAD"
        then or_else (some "/tmp/x.so") (variable "LD_PRELOAD" environ)
        else variable "LD_PRELOAD" environ))
unfolding lookup
set_env-variable_example =
    set_env-variable environ (("LD_PRELOAD", "/tmp/x.so") ∷ []) command "LD_PRELOAD"

abbrev answers : Option Error → Answers
answers start = record {
  check = record { is_error = false; stdout = ""; stderr = "" };
  pipes = none;
  start = start;
}

request-HasOptions_example :
    HasOptions milli
      (λ text. none)
      environ
      (plain_options milli (λ text. none) environ Kind.installs false [])
      1
      (request milli
        (λ text. none)
        environ
        Kind.installs
        "install"
        ("vim" ∷ [])
        (some [])
        []
        (answers none)
        system)
request-HasOptions_example =
    request-HasOptions milli (λ text. none) environ Kind.installs "install" ("vim" ∷ []) (some [])
      [] (answers none) system

abbrev state_or : AptSystem ℕ → Option (AptSystem ℕ × Option Error) → AptSystem ℕ
state_or s none = s
state_or s (some (s', e)) = s'

-- An attempt to clean the packages.
abbrev attempt : Option Error → AptSystem ℕ → Option (AptSystem ℕ × Option Error)
attempt start s =
    start_made milli (λ text. none) environ (answers start)
      (make_command milli (λ text. none) environ "clean" clean_job [] none s)

abbrev no_file : Error
no_file = message "no such file"

abbrev after_failure : AptSystem ℕ
after_failure = state_or system (attempt (some no_file) system)

abbrev after_start : AptSystem ℕ
after_start = state_or system (attempt none after_failure)

fails : attempt (some no_file) system ≡ some (after_failure, some no_file)
unfolding start_made make_command new_apt_command create_command_line start_command
fails = refl

starts : attempt none after_failure ≡ some (after_start, none)
unfolding start_made make_command new_apt_command create_command_line start_command
starts = refl

is_free : find_cmd "clean" system ≡ none
unfolding find_cmd lookup
is_free = refl

start_made-abort_example :
    abort milli (λ text. none) environ false none "clean" after_start
    ≡ (after_start, some (message "the process has not yet started"))
start_made-abort_example =
    start_made-abort milli (λ text. none) environ "clean" system after_failure after_start no_file
      clean_job clean_job [] [] none none (answers (some no_file)) (answers none) false none is_free
      fails starts

is_pkg_name-is_specifier_example :
    (is_pkg_name "vim:amd64" ≡ true)
    ↔ ((sp : Specifier) × (is_specifier sp ≡ true) × (specifier_text sp ≡ "vim:amd64"))
is_pkg_name-is_specifier_example = is_pkg_name-is_specifier "vim:amd64"
