-- ===== src/Command/Reported.antt =====
-- What `Wait` and `abort` report (src/internal/system/command.go).
use lastore_daemon.Base.{
  ℕ, Bool, true, false, ◌&&◌, [], ◌∷◌, ◌++◌, Option, none, some, ◌==◌, if◌then◌else◌, ◌≡◌, refl,
  Bool-cases, inl, inr, ◌∙◌, ap, sym, subst, ==_iff,
}
use lastore_daemon.Base.Float.{Float}
use lastore_daemon.System.{Status, failed, succeed, paused, JobError, Error, message, not_support}
use lastore_daemon.Command.{
  AptSystem, exit_success, exit_failure, exit_pause, put_command, find_cmd, abort_command, at_exit,
  wait,
}
use lastore_daemon.Command.Exit.{
  statuses, index_failed, end_status, report_exit_paused, report_exit_failed, report_exit_succeed,
  fails_index,
}
use lastore_daemon.Command.Ended.{logged, logged-commands, Ends, report_exit-Ends, index-Ends}

module _ (fl : Float) (p : ℕ) (s : AptSystem fl.Carrier) where
  -- The command with its exit code.
  abbrev with_code : ℕ → AptSystem fl.Carrier
  with_code code = put_command p (record (s.commands p) { exit_code = code }) s

  with_code-command :
      (code : ℕ) → (with_code code).commands p ≡ record (s.commands p) { exit_code = code }
  with_code-command code =
      ap (λ b. if b then record (s.commands p) { exit_code = code } else s.commands p)
        ((==_iff p p).1 refl)

  with_code-fails :
      (code : ℕ)
      → fails_index fl p (with_code code) ≡ ((code == exit_success) && index_failed (s.commands p))
  unfolding fails_index
  with_code-fails code =
      ap (λ c. (c.exit_code == exit_success) && index_failed c) (with_code-command code)

  code-Ends :
      (code : ℕ) (status : Status)
      → Ends fl p (with_code code) status (at_exit fl p (with_code code))
      → Ends fl p s status (at_exit fl p (with_code code))
  code-Ends code status (r, f) = (
    r,
    subst (λ c. find_cmd c.job_id (at_exit fl p (with_code code)) ≡ none) (with_code-command code)
        f,
  )

  pause-Ends : Ends fl p s paused (at_exit fl p (with_code exit_pause))
  pause-Ends = code-Ends exit_pause paused (
      report_exit-Ends fl p (with_code exit_pause) paused (with_code-fails exit_pause) (
        report_exit_paused fl p (logged fl p (with_code exit_pause)) (
          ap (λ f. (f p).exit_code) (logged-commands fl p (with_code exit_pause))
          ∙ ap (λ c. c.exit_code) (with_code-command exit_pause))))

  failure-Ends :
      (error : JobError)
      → (s.commands p).parse_job_error (s.commands p).stderr (s.commands p).stdout ≡ some error
      → Ends fl p s failed (at_exit fl p (with_code exit_failure))
  failure-Ends error parsed =
      let same = logged-commands fl p (with_code exit_failure) in
      let command = with_code-command exit_failure in
      code-Ends exit_failure failed (
        report_exit-Ends fl p (with_code exit_failure) failed (with_code-fails exit_failure) (
          report_exit_failed fl p (logged fl p (with_code exit_failure)) error
            (ap (λ f. (f p).exit_code) same ∙ ap (λ c. c.exit_code) command)
            (ap (λ f. (f p).parse_job_error (f p).stderr (f p).stdout) same
              ∙ ap (λ c. c.parse_job_error c.stderr c.stdout) command
              ∙ parsed)))

  success-Ends :
      index_failed (s.commands p) ≡ false
      → Ends fl p s succeed (at_exit fl p (with_code exit_success))
  success-Ends e = code-Ends exit_success succeed (
      report_exit-Ends fl p (with_code exit_success) succeed (with_code-fails exit_success ∙ e) (
        report_exit_succeed fl p (logged fl p (with_code exit_success)) (
          ap (λ f. (f p).exit_code) (logged-commands fl p (with_code exit_success))
          ∙ ap (λ c. c.exit_code) (with_code-command exit_success))))

  unindexed-Ends :
      index_failed (s.commands p) ≡ true
      → Ends fl p s failed (at_exit fl p (with_code exit_success))
  unindexed-Ends e =
      code-Ends exit_success failed
        (index-Ends fl p (with_code exit_success) (with_code-fails exit_success ∙ e))

  abbrev Ending : Bool → Bool → Bool → Type 0
  Ending is_paused is_error no_index =
      Ends fl p s
        (if is_paused
          then paused
          else if is_error
          then failed
          else if no_index
          then failed
          else succeed)
        (at_exit fl p (
          with_code
            (if is_paused then exit_pause else if is_error then exit_failure else exit_success)))

  unpaused-Ending :
      (is_error : Bool) (error : JobError)
      → (s.commands p).parse_job_error (s.commands p).stderr (s.commands p).stdout ≡ some error
      → Ending false is_error (index_failed (s.commands p))
  unpaused-Ending true error parsed = failure-Ends error parsed
  unpaused-Ending false error parsed = elim (Bool-cases (index_failed (s.commands p))) [
    | inl e ↦ subst (Ending false false) (sym e) (unindexed-Ends e)
    | inr e ↦ subst (Ending false false) (sym e) (success-Ends e)
  ]

  -- When the process of a command ends, and the command's reader of errors finds one in what the
  -- process has written, then exactly one report that is not only a line of the log is made, and the
  -- command's job is no longer in the set. The report is "paused" if the command was aborted for a
  -- pause; or else it is "failed" if the process ended with an error, or if it is an update of the
  -- sources that has written that index files failed; and only otherwise it is "succeed".
  pub wait-end_status :
      (is_error : Bool) (error : JobError)
      → (s.commands p).parse_job_error (s.commands p).stderr (s.commands p).stdout ≡ some error
      → (statuses (wait fl is_error p s).indicated
          ≡ statuses s.indicated ++ (end_status (s.commands p) is_error ∷ []))
        × (find_cmd (s.commands p).job_id (wait fl is_error p s) ≡ none)
  unfolding wait
  wait-end_status is_error error parsed =
      let no_index = index_failed (s.commands p) in
      elim (Bool-cases ((s.commands p).exit_code == exit_pause)) [
        | inl e ↦ subst (λ b. Ending b is_error no_index) (sym e) pause-Ends
        | inr e ↦
            subst (λ b. Ending b is_error no_index) (sym e) (unpaused-Ending is_error error parsed)
      ]

  wait-paused :
      (is_error : Bool)
      → ((s.commands p).exit_code == exit_pause) ≡ true
      → Ends fl p s paused (wait fl is_error p s)
  unfolding wait
  wait-paused is_error e =
      subst
        (λ b. Ends fl p s paused (
          at_exit fl p (
            with_code (if b then exit_pause else if is_error then exit_failure else exit_success))))
        (sym e) pause-Ends

  abort_command-with_code :
      (answer : Option Error)
      → (s.commands p).cancelable ≡ true
      → (s.commands p).started ≡ true
      → abort_command false answer p s ≡ (with_code exit_pause, answer)
  unfolding abort_command
  abort_command-with_code answer can started =
      ap
        (λ b.
          if b
          then (if (s.commands p).started
              then (with_code exit_pause, answer)
              else (s, some (message "the process has not yet started")))
          else (s, some not_support))
        can
      ∙ ap
          (λ b.
            if b
            then (with_code exit_pause, answer)
            else (s, some (message "the process has not yet started")))
          started

module _ (fl : Float) (p : ℕ) (s : AptSystem fl.Carrier) where
  -- An abort for a pause, of a command that runs and can be cancelled, returns the error of the
  -- signal, and whatever that is, the command's end is then reported as paused, whether or not its
  -- process ends with an error.
  pub abort_command-paused :
      (answer : Option Error) (is_error : Bool)
      → (s.commands p).cancelable ≡ true
      → (s.commands p).started ≡ true
      → let (s', result) = abort_command false answer p s in
        (result ≡ answer)
        × (statuses (wait fl is_error p s').indicated ≡ statuses s.indicated ++ (paused ∷ []))
  abort_command-paused answer is_error can started =
      subst
        (λ r.
          (r.1 ≡ answer)
          × (statuses (wait fl is_error p r.0).indicated ≡ statuses s.indicated ++ (paused ∷ [])))
        (sym (abort_command-with_code fl p s answer can started))
        (
          refl,
          (wait-paused fl p (with_code fl p s exit_pause) is_error
              (ap (λ c. c.exit_code == exit_pause) (with_code-command fl p s exit_pause))).0,
        )
