-- ===== src/Command/Ended.antt =====
-- A command ends with one report, and is no longer in the set (src/internal/system/command.go).
use lastore_daemon.Base.{
  ℕ, Bool, true, false, ◌&&◌, [], ◌∷◌, ◌++◌, none, String, ◌==◌, if◌then◌else◌, ◌≡◌, refl, arith,
  ◌∙◌, ap, sym, subst,
}
use lastore_daemon.Base.Float.{Float}
use lastore_daemon.System.{Status, failed}
use lastore_daemon.Command.{
  Command, AptSystem, exit_success, remove_cmd, find_cmd, indicate, indicate_failed, run_at_exit_fn,
  report_exit, at_exit, log_line, end_text, status_text,
}
use lastore_daemon.Command.Exit.{
  statuses, index_failed, indicate_log, remove_cmd-indicated, remove_cmd-commands,
  find_cmd-remove_cmd, fails_index, run_at_exit_fn_none, run_at_exit_fn_index,
  indicate_failed_status,
}

module _ (fl : Float) (p : ℕ) (s : AptSystem fl.Carrier) where
  -- The exit is logged, and the command taken out of the set.
  abbrev pub logged : AptSystem fl.Carrier
  logged =
      let c : Command fl.Carrier = s.commands p in
      remove_cmd c.job_id (indicate (log_line fl (end_text fl c (status_text fl c.exit_code))) s)

  pub logged-commands : logged.commands ≡ s.commands
  unfolding indicate
  logged-commands = remove_cmd-commands (s.commands p).job_id _

  logged-statuses : statuses logged.indicated ≡ statuses s.indicated
  logged-statuses =
      ap statuses (remove_cmd-indicated (s.commands p).job_id _) ∙ indicate_log _ s refl

  fails_index-logged : fails_index fl p logged ≡ fails_index fl p s
  unfolding fails_index
  fails_index-logged =
      ap (λ f. ((f p).exit_code == exit_success) && index_failed (f p)) logged-commands

  at_exit_step :
      (s' : AptSystem fl.Carrier) (done : Bool)
      → run_at_exit_fn fl p logged ≡ (s', done)
      → at_exit fl p s ≡ (if done then s' else report_exit fl p s')
  unfolding at_exit
  at_exit_step s' done e = ap (λ r. if r.1 then r.0 else report_exit fl p r.0) e

  -- One report with a state more, and the command out of the set.
  abbrev pub Ends : Status → AptSystem fl.Carrier → Type 0
  Ends status s' =
      (statuses s'.indicated ≡ statuses s.indicated ++ (status ∷ []))
      × (find_cmd (s.commands p).job_id s' ≡ none)

  find_cmd-report_exit :
      (id : String) (s' : AptSystem fl.Carrier)
      → find_cmd id s' ≡ none
      → find_cmd id (report_exit fl p s') ≡ none
  unfolding find_cmd report_exit indicate
  find_cmd-report_exit id s' e = ground arith

  pub report_exit-Ends :
      (status : Status)
      → fails_index fl p s ≡ false
      → statuses (report_exit fl p logged).indicated ≡ statuses logged.indicated ++ (status ∷ [])
      → Ends status (at_exit fl p s)
  report_exit-Ends status e r =
      subst (Ends status)
        (sym (at_exit_step logged false (run_at_exit_fn_none fl p logged (fails_index-logged ∙ e))))
        (
          r ∙ ap (λ l. l ++ (status ∷ [])) logged-statuses,
          find_cmd-report_exit (s.commands p).job_id logged
              (find_cmd-remove_cmd (s.commands p).job_id _),
        )

  find_cmd-indicate_failed :
      (err_type detail : String) (s' : AptSystem fl.Carrier)
      → find_cmd (s'.commands p).job_id (indicate_failed fl err_type detail false p s') ≡ none
  unfolding indicate_failed indicate find_cmd
  find_cmd-indicate_failed err_type detail s' = find_cmd-remove_cmd (s'.commands p).job_id s'

  pub index-Ends : fails_index fl p s ≡ true → Ends failed (at_exit fl p s)
  index-Ends e =
      let (text, r) = run_at_exit_fn_index fl p logged (fails_index-logged ∙ e) in
      subst (Ends failed) (sym (at_exit_step _ true r)) (
        indicate_failed_status fl p logged text _ false
            ∙ ap (λ l. l ++ (failed ∷ [])) logged-statuses,
        subst
            (λ f.
              find_cmd (f p).job_id
                (indicate_failed fl text (logged.commands p).stderr false p logged)
              ≡ none)
            logged-commands (find_cmd-indicate_failed text (logged.commands p).stderr logged),
      )
