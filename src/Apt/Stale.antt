-- ===== src/Apt/Stale.antt =====
-- A command whose start failed stays in the set (src/internal/system/apt/apt.go, proxy.go).
use lastore_daemon.Base.{
  ℕ, ◌<◌, Bool, true, false, List, Option, none, some, String, str_eq_self, ◌≡◌, arith,
  Option-cases, inl, inr, ap, sym, subst,
}
use lastore_daemon.Base.Assoc.{Assoc, lookup-insert}
use lastore_daemon.Base.Float.{Float}
use lastore_daemon.System.{Error, message}
use lastore_daemon.Command.{AptSystem, add_cmd, find_cmd, indicate, abort_command, start_command}
use lastore_daemon.Command.Env.{set_env}
use lastore_daemon.Apt.{create_command_line}
use lastore_daemon.Apt.Operations.{Answers, new_apt_command, make_command, start_made}
use lastore_daemon.Apt.Requests.{abort}

-- The set holds, for a job, a command that can be cancelled and has not started.
abbrev pub Holds : {F : Type 0} → String → ℕ → AptSystem F → Type 0
Holds id p s =
    (find_cmd id s ≡ some p)
    × ((s.commands p).started ≡ false)
    × ((s.commands p).cancelable ≡ true)
    × (p < s.num_commands)

module _ (fl : Float) (parse_float : String → Option fl.Carrier) (own_environ : List String) where
  -- What is made next does not change the set.
  make_command-Holds :
      (id cmd_type : String) (args : List String) (vars : Option (Assoc String)) (p : ℕ)
      (s s' : AptSystem fl.Carrier) (q : ℕ)
      → Holds id p s
      → make_command fl parse_float own_environ id cmd_type args vars s ≡ some (s', q)
      → Holds id p s' × (q ≡ s.num_commands)
  unfolding make_command new_apt_command add_cmd find_cmd set_env
  make_command-Holds id cmd_type args none p s s' q h e =
      elim (Option-cases (create_command_line cmd_type args)) [
        | inl n ↦ absurd (ground arith)
        | inr ((path, line), n) ↦ ground arith
      ]
  make_command-Holds id cmd_type args (some vars) p s s' q h e =
      elim (Option-cases (create_command_line cmd_type args)) [
        | inl n ↦ absurd (ground arith)
        | inr ((path, line), n) ↦ ground arith
      ]

  start_command-Holds :
      (a : Answers) (id : String) (p q : ℕ) (s : AptSystem fl.Carrier)
      → Holds id p s
      → p < q
      → Holds id p (start_command fl a.pipes a.start q s).0
  unfolding start_command indicate find_cmd
  start_command-Holds a id p q s h l = ground arith

  abort-Holds :
      (with_failed : Bool) (killed : Option Error) (id : String) (p : ℕ) (s : AptSystem fl.Carrier)
      → Holds id p s
      → abort fl parse_float own_environ with_failed killed id s
        ≡ (s, some (message "the process has not yet started"))
  unfolding abort abort_command find_cmd
  abort-Holds with_failed killed id p s h = ground arith

  -- A start that fails leaves the new command in the set.
  failed-Holds :
      (id cmd_type : String) (args : List String) (vars : Option (Assoc String)) (a : Answers)
      (s s1 : AptSystem fl.Carrier) (e : Error)
      → find_cmd id s ≡ none
      → start_made fl parse_float own_environ a
          (make_command fl parse_float own_environ id cmd_type args vars s)
        ≡ some (s1, some e)
      → Holds id s.num_commands s1
  unfolding start_made start_command make_command new_apt_command add_cmd find_cmd set_env indicate
  failed-Holds id cmd_type args none a s s1 e h q =
      elim (Option-cases (create_command_line cmd_type args)) [
        | inl n ↦ absurd (ground arith)
        | inr ((path, line), n) ↦
            ground (arith, lookup-insert id id s.num_commands s.cmd_set, str_eq_self id)
      ]
  failed-Holds id cmd_type args (some v) a s s1 e h q =
      elim (Option-cases (create_command_line cmd_type args)) [
        | inl n ↦ absurd (ground arith)
        | inr ((path, line), n) ↦
            ground (arith, lookup-insert id id s.num_commands s.cmd_set, str_eq_self id)
      ]

  -- A command of a job, which has none in the set, is made and its start fails. When another command
  -- of the same job is then made and started, an abort of the job reports that its process has not
  -- yet started, and changes nothing: the command that runs cannot be stopped.
  pub start_made-abort :
      (id : String) (s s1 s2 : AptSystem fl.Carrier) (e : Error) (type1 type2 : String)
      (args1 args2 : List String) (vars1 vars2 : Option (Assoc String)) (a1 a2 : Answers)
      (with_failed : Bool) (killed : Option Error)
      → find_cmd id s ≡ none
      → start_made fl parse_float own_environ a1
          (make_command fl parse_float own_environ id type1 args1 vars1 s)
        ≡ some (s1, some e)
      → start_made fl parse_float own_environ a2
          (make_command fl parse_float own_environ id type2 args2 vars2 s1)
        ≡ some (s2, none)
      → abort fl parse_float own_environ with_failed killed id s2
        ≡ (s2, some (message "the process has not yet started"))
  unfolding start_made
  start_made-abort id s s1 s2 e type1 type2 args1 args2 vars1 vars2 a1 a2 with_failed killed free
        failed started =
      let h = failed-Holds id type1 args1 vars1 a1 s s1 e free failed in
      elim (Option-cases (make_command fl parse_float own_environ id type2 args2 vars2 s1)) [
        | inl n ↦ absurd (ground arith)
        | inr ((s', q), n) ↦
            let (h', same) = make_command-Holds id type2 args2 vars2 s.num_commands s1 s' q h n in
            let step : start_command fl a2.pipes a2.start q s' ≡ (s2, none) = ground arith in
            abort-Holds with_failed killed id s.num_commands s2 (
              subst (Holds id s.num_commands) (ap (λ r. r.0) step) (
                start_command-Holds a2 id s.num_commands q s' h'
                  (subst (λ q. s.num_commands < q) (sym same) h.3)))
      ]
