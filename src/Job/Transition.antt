-- ===== src/Job/Transition.antt =====
-- The state machine of a job (src/lastore-daemon/start_job.go).
pub mod Edges
pub mod Signals
use lastore_daemon.Base.{
  ℕ, zero, suc, Bool, true, false, not, ◌&&◌, ◌||◌, List, [], ◌∷◌, ◌++◌, Option, none, some,
  if◌then◌else◌,
}
use lastore_daemon.Base.Int.{pos, ltb_ℤ}
use lastore_daemon.System.{
  Status, status_eq, ready, running, failed, succeed, paused, end, Error, message,
}
use lastore_daemon.Job.{Job}

-- The table `validation`; a status with no row has no successor.
unfoldable pub successors : Status → List Status
successors ready = failed ∷ running ∷ paused ∷ end ∷ []
successors running = failed ∷ succeed ∷ paused ∷ []
successors failed = ready ∷ end ∷ []
successors succeed = end ∷ []
successors paused = ready ∷ end ∷ []
successors _ = []

abbrev pub contains_status : List Status → Status → Bool
contains_status [] to = false
contains_status (v ∷ tos) to = status_eq v to || contains_status tos to

unfoldable pub valid_transition : Status → Status → Bool
unfolding successors
valid_transition from to = contains_status (successors from) to

-- What a transition does beside changing the job: hooks that run, and the signal that a client
-- sees.
pub data Effect : Type 0 where
  pre_hook after_hook signal : Status → Effect
  real_running_hook : Effect

-- The hooks of a job, by the status that they are for. A hook runs with the job unlocked, so that
-- it may change the job. `not_use_dbus` is the global of that name.
pub record Hooks (F : Type 0) : Type 0 where
  pub not_use_dbus : Bool
  pub pre : Status → Option (Job F → Job F × Option Error)
  pub after : Status → Option (Job F → Job F × Option Error)

pub record Outcome (F : Type 0) : Type 0 where
  pub job : Job F
  pub trace : List Effect
  pub error : Option Error

abbrev pub is_some {ℓ} : {A : Type ℓ} → Option A → Bool
is_some none = false
is_some (some a) = true

-- Only the hooks for these two states can stop a transition.
abbrev pub guarded_error : Status → Option Error → Option Error
guarded_error to none = none
guarded_error to (some e) = if status_eq to running || status_eq to succeed then some e else none

abbrev pub traced : Bool → Effect → List Effect
traced b e = if b then e ∷ [] else []

module _ {F : Type 0} where
  abbrev pub run_hook : Option (Job F → Job F × Option Error) → Job F → Job F × Option Error
  run_hook none j = (j, none)
  run_hook (some f) j = f j

  abbrev pub is_inhibited : Job F → Status → Bool
  is_inhibited j to =
      is_some j.next
      && (status_eq j.status succeed && status_eq to end
          || status_eq j.status running && status_eq to succeed)

  -- From the assignment `j.Status = to` on. The second part tells whether the call with
  -- `EndStatus` follows.
  unfoldable pub enter : Hooks F → Bool → List Effect → Job F → Status → Outcome F × Bool
  enter h inhibited before j to =
      let j1 : Job F = record j { status = to } in
      let (j2, e) = run_hook (h.after to) j1 in
      let trace : List Effect =
        before
        ++ (traced (not inhibited) (signal to) ++ traced (is_some (h.after to)) (after_hook to)) in
      if h.not_use_dbus
      then (record { job = j1; trace = before; error = none }, false)
      else elim (guarded_error to e) [
        | some e' ↦ (record { job = j2; trace = trace; error = some e' }, false)
        | none ↦ (record { job = j2; trace = trace; error = none }, status_eq j2.status succeed)
      ]

  -- One call without the one that it may end in.
  unfoldable pub transition_once : Hooks F → Job F → Status → Outcome F × Bool
  unfolding enter
  transition_once h j to =
      let (j1, e) = run_hook (h.pre to) j in
      let trace : List Effect = traced (is_some (h.pre to)) (pre_hook to) in
      if not (valid_transition j.status to)
      then (record { job = j; trace = []; error = some (message "can't transition") }, false)
      else if status_eq to failed && ltb_ℤ (pos 0) j.retry
      then (record { job = record j { status = to }; trace = []; error = none }, false)
      else elim (guarded_error to e) [
        | some e' ↦ (record { job = j1; trace = trace; error = some e' }, false)
        | none ↦ enter h (is_inhibited j to) trace j1 to
      ]

  abbrev pub prepend : List Effect → Option (Outcome F) → Option (Outcome F)
  prepend before none = none
  prepend before (some o) = some (record o { trace = before ++ o.trace })

  -- `TransitionJobState`. The call that it ends in is another transition, so that hooks which set
  -- the status could keep it going: `none` means that the fuel ran out.
  unfoldable pub transition : ℕ → Hooks F → Job F → Status → Option (Outcome F)
  transition zero h j to = none
  transition (suc fuel) h j to =
      let (o, again) = transition_once h j to in
      elim again [ true ↦ prepend o.trace (transition fuel h o.job end) | false ↦ some o ]
