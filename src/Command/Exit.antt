-- ===== src/Command/Exit.antt =====
-- What is reported when the process of a command ends (src/internal/system/command.go).
use mathlib.Core.List.{append-nil}
use lastore_daemon.Base.{
  ℕ, Bool, true, false, not, ◌&&◌, List, [], ◌∷◌, ◌++◌, none, some, String, str_eq_self, ◌==◌,
  if◌then◌else◌, ◌≡◌, refl, arith, Bool-cases, inl, inr, ◌∙◌, ap,
}
use lastore_daemon.Base.Assoc.{lookup-erase}
use lastore_daemon.Base.Float.{Float}
use lastore_daemon.System.{Status, failed, succeed, paused, JobError, ProgressInfo}
use lastore_daemon.Command.{
  Command, AptSystem, AtExit, exit_success, exit_failure, exit_pause, remove_cmd, find_cmd,
  indicate, indicate_failed, run_at_exit_fn, report_exit, contains, log_line, minus_one, report,
}

module _ {F : Type 0} where
  -- The reports that are more than a line of the log.
  abbrev pub is_report : ProgressInfo F → Bool
  is_report info = not info.only_log

  abbrev pub statuses : List (ProgressInfo F) → List Status
  statuses [] = []
  statuses (info ∷ infos) = if is_report info then info.status ∷ statuses infos else statuses infos

  -- Whether the download of the index failed although the process ended well.
  abbrev pub index_failed : Command F → Bool
  index_failed c = elim c.at_exit_fn [
    | AtExit.no_fn ↦ false
    | AtExit.check_index ↦ contains c.stderr "Some index files failed to download"
  ]

  -- The state in which a command ends.
  abbrev pub end_status : Command F → Bool → Status
  end_status c is_error =
      if c.exit_code == exit_pause
      then paused
      else if is_error
      then failed
      else if index_failed c
      then failed
      else succeed

  statuses-append :
      (xs ys : List (ProgressInfo F)) → statuses (xs ++ ys) ≡ statuses xs ++ statuses ys
  statuses-append [] ys = refl
  statuses-append (x ∷ xs) ys = ground (arith, statuses-append xs ys)

  pub indicate_log :
      (info : ProgressInfo F) (s : AptSystem F)
      → info.only_log ≡ true
      → statuses (indicate info s).indicated ≡ statuses s.indicated
  unfolding indicate
  indicate_log info s e =
      statuses-append s.indicated (info ∷ [])
      ∙ ap (λ b. statuses s.indicated ++ (if not b then info.status ∷ [] else [])) e
      ∙ append-nil (statuses s.indicated)

  indicate_report :
      (info : ProgressInfo F) (s : AptSystem F)
      → info.only_log ≡ false
      → statuses (indicate info s).indicated ≡ statuses s.indicated ++ (info.status ∷ [])
  unfolding indicate
  indicate_report info s e = ground (arith, statuses-append s.indicated (info ∷ []))

  pub remove_cmd-indicated :
      (id : String) (s : AptSystem F) → (remove_cmd id s).indicated ≡ s.indicated
  unfolding remove_cmd
  remove_cmd-indicated id s = ground arith

  pub remove_cmd-commands :
      (id : String) (s : AptSystem F) → (remove_cmd id s).commands ≡ s.commands
  unfolding remove_cmd
  remove_cmd-commands id s = ground arith

  pub find_cmd-remove_cmd : (id : String) (s : AptSystem F) → find_cmd id (remove_cmd id s) ≡ none
  unfolding find_cmd remove_cmd
  find_cmd-remove_cmd id s = ground (arith, lookup-erase id id s.cmd_set, str_eq_self id)

module _ (fl : Float) where
  open fl use {Carrier, lit}

  -- The log line at the end, and the command out of the set.
  abbrev logged : ProgressInfo Carrier → ℕ → AptSystem Carrier → AptSystem Carrier
  logged line p s = remove_cmd (s.commands p).job_id (indicate line s)

  module _ (p : ℕ) (s : AptSystem Carrier) where
    pub report_exit_paused :
        (s.commands p).exit_code ≡ exit_pause
        → statuses (report_exit fl p s).indicated ≡ statuses s.indicated ++ (paused ∷ [])
    unfolding report_exit
    report_exit_paused e =
        let info = report fl (s.commands p).job_id paused (minus_one fl) true none in
        let step : report_exit fl p s ≡ indicate info s = ground arith in
        ap (λ x. statuses x.indicated) step ∙ indicate_report info s refl

    pub report_exit_failed :
        (error : JobError)
        → (s.commands p).exit_code ≡ exit_failure
        → (s.commands p).parse_job_error (s.commands p).stderr (s.commands p).stdout ≡ some error
        → statuses (report_exit fl p s).indicated ≡ statuses s.indicated ++ (failed ∷ [])
    unfolding report_exit
    report_exit_failed error e parsed =
        let info = report fl (s.commands p).job_id failed (minus_one fl) true (some error) in
        let detail = indicate (log_line fl error.err_detail) s in
        let step : report_exit fl p s ≡ indicate info detail = ground arith in
        ap (λ x. statuses x.indicated) step
        ∙ indicate_report info detail refl
        ∙ ap (λ l. l ++ (failed ∷ [])) (indicate_log (log_line fl error.err_detail) s refl)

    pub report_exit_succeed :
        (s.commands p).exit_code ≡ exit_success
        → statuses (report_exit fl p s).indicated ≡ statuses s.indicated ++ (succeed ∷ [])
    unfolding report_exit
    report_exit_succeed e =
        let info = report fl (s.commands p).job_id succeed (lit 1 0) false none in
        let step : report_exit fl p s ≡ indicate info s = ground arith in
        ap (λ x. statuses x.indicated) step ∙ indicate_report info s refl

    unfoldable pub fails_index : Bool
    fails_index = ((s.commands p).exit_code == exit_success) && index_failed (s.commands p)

    pub run_at_exit_fn_none : fails_index ≡ false → run_at_exit_fn fl p s ≡ (s, false)
    unfolding run_at_exit_fn fails_index
    run_at_exit_fn_none e = ground arith

    pub run_at_exit_fn_index :
        fails_index ≡ true
        → (text : String) × (run_at_exit_fn fl p s
            ≡ (indicate_failed fl text (s.commands p).stderr false p s, true))
    unfolding run_at_exit_fn fails_index
    run_at_exit_fn_index e =
        let stderr = (s.commands p).stderr in
        elim (Bool-cases (contains stderr "No space left on device")) [
          | inl space ↦ ("insufficientSpace", ground arith)
          | inr space ↦ ("IndexDownloadFailed", ground arith)
        ]

    pub indicate_failed_status :
        (err_type detail : String) (is_fatal : Bool)
        → statuses (indicate_failed fl err_type detail is_fatal p s).indicated
          ≡ statuses s.indicated ++ (failed ∷ [])
    unfolding indicate_failed
    indicate_failed_status err_type detail is_fatal =
        indicate_report _ (remove_cmd (s.commands p).job_id s) refl
        ∙ ap (λ l. statuses l ++ (failed ∷ [])) (remove_cmd-indicated (s.commands p).job_id s)
