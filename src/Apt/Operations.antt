-- ===== src/Apt/Operations.antt =====
-- The operations of the package manager (src/internal/system/apt/proxy.go). The wait for dpkg's lock
-- is over when an operation goes on; it changes nothing.
use Prim.Native.String.{◌++◌ as text_append}
use lastore_daemon.Base.{
  ℕ, suc, Bool, true, false, List, [], ◌∷◌, Option, none, some, String, if◌then◌else◌,
}
use lastore_daemon.Base.Assoc.{Assoc, lookup, insert}
use lastore_daemon.Base.Float.{Float}
use lastore_daemon.System.{JobError, Error, ProgressInfo}
use lastore_daemon.Command.{
  AptSystem, AtExit, add_cmd, indicate, start_command, indicate_failed, put_command, contains, join,
  log_line, made_error,
}
use lastore_daemon.Command.Env.{set_env}
use lastore_daemon.Apt.{create_command_line, parse_pkg_system_error, assign}
use lastore_daemon.Apt.Messages.{parse_job_error, parse_progress_info, job_error_of}

-- How a process ended, and what it wrote.
pub record Output : Type 0 where
  pub is_error : Bool
  pub stdout : String
  pub stderr : String

-- What the outside answers in an operation: the end of `apt-get check`, and the errors of the pipes
-- and of the start of the process.
pub record Answers : Type 0 where
  pub check : Output
  pub pipes : Option Error
  pub start : Option Error

-- The arguments and the variable of an incremental update.
unfoldable pub speed_args : Assoc String → List String
speed_args args = elim (lookup "Acquire::http::Dl-Limit" args) [
  | none ↦ []
  | some limit ↦ "--max-recv-speed" ∷ limit ∷ []
]

unfoldable pub upgrade_arg_string : Assoc String → String
upgrade_arg_string args = elim (lookup "Dir::Etc::SourceList" args) [
  | none ↦ ""
  | some list ↦ elim (lookup "Dir::Etc::SourceParts" args) [
    | none ↦ ""
    | some parts ↦ join (
        "-o"
        ∷ assign "Dir::Etc::SourceList" list
        ∷ "-o"
        ∷ assign "Dir::Etc::SourceParts" parts
        ∷ [])
  ]
]

-- `environ[key] = value`; none is the panic of a write to a nil map.
abbrev pub set_variable : String → String → Option (Assoc String) → Option (Assoc String)
set_variable key value none = none
set_variable key value (some vars) = some (insert key value vars)

-- An operation's result: the error beside the state, and none for a panic.
abbrev pub Ran : Type 0 → Type 0
Ran F = Option (AptSystem F × Option Error)

module _ (fl : Float) (parse_float : String → Option fl.Carrier) (own_environ : List String) where
  open fl use {Carrier}

  -- `newAPTCommand`; none is a panic.
  unfoldable pub new_apt_command :
      String → String → List String → AptSystem Carrier → Option (AptSystem Carrier × ℕ)
  new_apt_command id cmd_type args s = elim (create_command_line cmd_type args) [
    | none ↦ none
    | some (path, cmd_args) ↦
        let p = s.num_commands in
        some (
          add_cmd p
              (record (put_command p
                (record {
                  job_id = id;
                  cancelable = true;
                  path = path;
                  args = cmd_args;
                  started = false;
                  env = none;
                  exit_code = 0;
                  stdout = "";
                  stderr = "";
                  parse_progress_info = parse_progress_info fl parse_float;
                  parse_job_error = parse_job_error;
                  at_exit_fn = AtExit.no_fn;
                })
                s) { num_commands = suc p }),
          p,
        )
  ]

  -- `CheckPkgSystemError`
  unfoldable pub check_pkg_system_error :
      Bool → Output → AptSystem Carrier → AptSystem Carrier × Option JobError
  check_pkg_system_error lock o s =
      let args : String =
        if lock then "[apt-get check]" else "[apt-get check -o Debug::NoLocking=1]" in
      let begun =
        indicate
          (log_line fl (text_append "=== CheckPkg cmd running: " (text_append args " ===\n"))) s in
      let end = log_line fl (text_append "=== CheckPkg " (text_append args " end ===\n")) in
      let failed_line : JobError → ProgressInfo Carrier = λ e. log_line fl (
        text_append "=== CheckPkg cmd failed: ["
          (text_append e.err_type (text_append "] " (text_append e.err_detail " ===\n")))) in
      if o.is_error
      then (elim (parse_pkg_system_error o.stdout o.stderr) [
        | some e ↦ (indicate end (indicate (failed_line e) begun), some e)
        | none ↦
            let e = made_error "ErrorUnknown" (text_append o.stdout o.stderr) in
            (indicate end (indicate (failed_line e) begun), some e)
      ])
      else (indicate end begun, none)

  -- A command that is made with its variables.
  unfoldable pub make_command :
      String
      → String
      → List String
      → Option (Assoc String)
      → AptSystem Carrier
      → Option (AptSystem Carrier × ℕ)
  unfolding new_apt_command
  make_command id cmd_type args vars s = elim (new_apt_command id cmd_type args s) [
    | none ↦ none
    | some (s', p) ↦ some (put_command p (set_env own_environ vars (s'.commands p)) s', p)
  ]

  -- The command is started at once.
  unfoldable pub start_made : Answers → Option (AptSystem Carrier × ℕ) → Ran Carrier
  start_made a none = none
  start_made a (some (s, p)) = some (start_command fl a.pipes a.start p s)

  -- `safeStart`: only the simulation is started; `simulated` goes on.
  unfoldable pub safe_start : Answers → Option (AptSystem Carrier × ℕ) → Ran Carrier
  safe_start a none = none
  safe_start a (some (s, p)) = some (s, a.start)

  -- What `safeStart` does when the simulation has ended; `error_text` is the method `Error`.
  unfoldable pub simulated :
      (Error → String) → Output → Answers → ℕ → AptSystem Carrier → AptSystem Carrier
  simulated error_text o a p s =
      if o.is_error
      then (let e = job_error_of o.stderr o.stdout in
          indicate_failed fl e.err_type e.err_detail false p s)
      else if contains o.stdout "Remv deepin-desktop-environment-core "
      then indicate_failed fl "removeDDE" "" true p s
      else (let (s', e) = start_command fl a.pipes a.start p s in
          elim e [
            | none ↦ s'
            | some reason ↦
                indicate_failed fl "ErrorUnknown"
                  (text_append "apt-get start failed: " (error_text reason)) false p s'
          ])
