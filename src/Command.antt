-- ===== src/Command.antt =====
-- A command of the package manager and the set of the commands that run
-- (src/internal/system/command.go, src/internal/system/apt/apt.go).
pub mod Env
pub mod Variables
pub mod Exit
pub mod Ended
pub mod Reported
use Prim.Native.String.{◌++◌ as text_append}
use text.Mathlib.Text.{find?}
use lastore_daemon.Base.{
  ℕ, suc, Bool, true, false, not, ◌&&◌, List, [], ◌∷◌, ◌++◌, Option, none, some, String, str_eq,
  ◌==◌, if◌then◌else◌,
}
use lastore_daemon.Base.Assoc.{Assoc, lookup, insert, erase}
use lastore_daemon.Base.Float.{Float}
use lastore_daemon.System.{
  Status, running, failed, succeed, paused, other, JobError, Error, not_support, message,
  ProgressInfo,
}

abbrev pub exit_success : ℕ
exit_success = 0

abbrev pub exit_failure : ℕ
exit_failure = 1

abbrev pub exit_pause : ℕ
exit_pause = 2

-- The `AtExitFn` that a command has: none, or the one that `UpdateSource` sets.
pub data AtExit : Type 0 where
  no_fn check_index : AtExit

-- `Command`, with the arguments of its process after the program's name, whether the process has
-- started, its environment (none: that of the daemon), and what it has written.
pub record Command (F : Type 0) : Type 0 where
  pub job_id : String
  pub cancelable : Bool
  pub path : String
  pub args : List String
  pub started : Bool
  pub env : Option (List String)
  pub exit_code : ℕ
  pub stdout : String
  pub stderr : String
  pub parse_progress_info : String → String → Option (ProgressInfo F)
  pub parse_job_error : String → String → Option JobError
  pub at_exit_fn : AtExit

-- `APTSystem`: the commands that were made, by pointer, those that run, by job, and what the
-- indicator was told, in order.
pub record AptSystem (F : Type 0) : Type 0 where
  pub commands : ℕ → Command F
  pub num_commands : ℕ
  pub cmd_set : Assoc ℕ
  pub indicated : List (ProgressInfo F)
  pub incremental_update : Bool

abbrev pub made_error : String → String → JobError
made_error err_type err_detail = record {
  err_type = err_type;
  err_detail = err_detail;
  is_check_error = false;
  error_log = [];
}

-- `strings.Contains`
abbrev pub contains : String → String → Bool
contains s t = elim (find? s t) [ none ↦ false | some i ↦ true ]

-- `strings.Join(texts, " ")`
unfoldable pub join : List String → String
join [] = ""
join (t ∷ []) = t
join (t ∷ (u ∷ ts)) = text_append t (text_append " " (join (u ∷ ts)))

module _ {F : Type 0} where
  abbrev pub put_command : ℕ → Command F → AptSystem F → AptSystem F
  put_command p c s = record s { commands = λ x. if x == p then c else s.commands x }

  unfoldable pub add_cmd : ℕ → AptSystem F → AptSystem F
  add_cmd p s = elim (lookup (s.commands p).job_id s.cmd_set) [
    | some old ↦ s
    | none ↦ record s { cmd_set = insert (s.commands p).job_id p s.cmd_set }
  ]

  unfoldable pub remove_cmd : String → AptSystem F → AptSystem F
  remove_cmd id s = elim (lookup id s.cmd_set) [
    | none ↦ s
    | some p ↦ record s { cmd_set = erase id s.cmd_set }
  ]

  unfoldable pub find_cmd : String → AptSystem F → Option ℕ
  find_cmd id s = lookup id s.cmd_set

  unfoldable pub indicate : ProgressInfo F → AptSystem F → AptSystem F
  indicate info s = record s { indicated = s.indicated ++ (info ∷ []) }

  -- `abort`; `answer` is the error of `Getpgid` or of `Kill`.
  unfoldable pub abort_command : Bool → Option Error → ℕ → AptSystem F → AptSystem F × Option Error
  abort_command with_failed answer p s =
      let c : Command F = s.commands p in
      if c.cancelable
      then (if c.started
          then (
            put_command p
                (record c { exit_code = if with_failed then exit_failure else exit_pause }) s,
            answer,
          )
          else (s, some (message "the process has not yet started")))
      else (s, some not_support)

module _ (fl : Float) where
  open fl use {Carrier, lit, sub}

  abbrev pub minus_one : Carrier
  minus_one = sub (lit 0 0) (lit 1 0)

  -- A report that is only a line of the log.
  abbrev pub log_line : String → ProgressInfo Carrier
  log_line text = record {
    job_id = "";
    progress = lit 0 0;
    reset_progress = false;
    description = "";
    status = other "";
    cancelable = false;
    error = none;
    fatal_error = false;
    original_log = text;
    only_log = true;
  }

  abbrev pub report : String → Status → Carrier → Bool → Option JobError → ProgressInfo Carrier
  report id status progress cancelable error = record {
    job_id = id;
    progress = progress;
    reset_progress = false;
    description = "";
    status = status;
    cancelable = cancelable;
    error = error;
    fatal_error = false;
    original_log = "";
    only_log = false;
  }

  abbrev pub end_text : Command Carrier → String → String
  end_text c status = text_append "=== Job " (
      text_append c.job_id (
        text_append " end: " (
          text_append (join (c.path ∷ c.args))
            (text_append " [Status: " (text_append status "] ===\n")))))

  unfoldable pub indicate_failed :
      String → String → Bool → ℕ → AptSystem Carrier → AptSystem Carrier
  indicate_failed err_type err_detail is_fatal p s =
      let c : Command Carrier = s.commands p in
      indicate
        (record (report c.job_id failed minus_one true (some (made_error err_type err_detail))) {
          fatal_error = is_fatal;
          original_log = end_text c (text_append "FAILED - " err_type);
        })
        (remove_cmd c.job_id s)

  -- The `AtExitFn` of `UpdateSource`; the second part is what it returns.
  unfoldable pub run_at_exit_fn : ℕ → AptSystem Carrier → AptSystem Carrier × Bool
  unfolding indicate_failed
  run_at_exit_fn p s =
      let c : Command Carrier = s.commands p in
      elim c.at_exit_fn [
        | no_fn ↦ (s, false)
        | check_index ↦
            if (c.exit_code == exit_success)
              && contains c.stderr "Some index files failed to download"
            then (if contains c.stderr "No space left on device"
                then (indicate_failed "insufficientSpace" c.stderr false p s, true)
                else (indicate_failed "IndexDownloadFailed" c.stderr false p s, true))
            else (s, false)
      ]

  abbrev pub status_text : ℕ → String
  status_text code =
      if code == exit_success
      then "SUCCESS"
      else if code == exit_failure
      then "FAILED"
      else if code == exit_pause
      then "PAUSED"
      else "UNKNOWN"

  -- The last part of `atExit`.
  unfoldable pub report_exit : ℕ → AptSystem Carrier → AptSystem Carrier
  report_exit p s =
      let c : Command Carrier = s.commands p in
      if c.exit_code == exit_success
      then indicate (report c.job_id succeed (lit 1 0) false none) s
      else if c.exit_code == exit_failure
      then elim (c.parse_job_error c.stderr c.stdout) [
        | some e ↦
            indicate (report c.job_id failed minus_one true (some e))
              (indicate (log_line e.err_detail) s)
        | none ↦ indicate (report c.job_id succeed (lit 1 0) false none) s
      ]
      else if c.exit_code == exit_pause
      then indicate (report c.job_id paused minus_one true none) s
      else s

  unfoldable pub at_exit : ℕ → AptSystem Carrier → AptSystem Carrier
  unfolding run_at_exit_fn report_exit
  at_exit p s =
      let c : Command Carrier = s.commands p in
      let logged =
        remove_cmd c.job_id (indicate (log_line (end_text c (status_text c.exit_code))) s) in
      let (s', done) = run_at_exit_fn p logged in if done then s' else report_exit p s'

  -- `Wait`; the first argument is whether the process ended with an error.
  unfoldable pub wait : Bool → ℕ → AptSystem Carrier → AptSystem Carrier
  unfolding at_exit
  wait is_error p s =
      let c : Command Carrier = s.commands p in
      let code =
        if c.exit_code == exit_pause
        then exit_pause
        else if is_error
        then exit_failure
        else exit_success in
      at_exit p (put_command p (record c { exit_code = code }) s)

  -- A line that `updateProgress` reads.
  unfoldable pub progress_line : ℕ → String → AptSystem Carrier → AptSystem Carrier
  progress_line p line s =
      let c : Command Carrier = s.commands p in
      elim (c.parse_progress_info c.job_id line) [
        | none ↦ indicate (log_line line) s
        | some info ↦
            indicate (record info { original_log = line })
              (put_command p (record c { cancelable = info.cancelable }) s)
      ]

  unfoldable pub update_progress : ℕ → List String → AptSystem Carrier → AptSystem Carrier
  unfolding progress_line
  update_progress p [] s = s
  update_progress p (line ∷ lines) s = update_progress p lines (progress_line p line s)

  -- `Start`: the line of the log, and the process; `answer` is the error of making the pipes or of
  -- starting the process.
  unfoldable pub start_command :
      Option Error → Option Error → ℕ → AptSystem Carrier → AptSystem Carrier × Option Error
  start_command (some e) answer p s = (s, some e)
  start_command none answer p s =
      let c : Command Carrier = s.commands p in
      let text = text_append "=== Job " (
        text_append c.job_id
          (text_append " running: " (text_append (join (c.path ∷ c.args)) " ===\n"))) in
      let logged = indicate (log_line text) s in
      elim answer [
        | some e ↦ (logged, some e)
        | none ↦ (put_command p (record c { started = true }) logged, none)
      ]
