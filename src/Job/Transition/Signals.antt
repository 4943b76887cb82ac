-- ===== src/Job/Transition/Signals.antt =====
-- What a transition reports: its errors, the hooks that it runs and the signals that it sends.
use lastore_daemon.Base.{
  ℕ, suc, true, false, List, [], ◌∷◌, none, some, ◌≡◌, refl, ap, arith, ◌++◌, if◌then◌else◌,
}
use lastore_daemon.Base.Int.{pos, ltb_ℤ}
use lastore_daemon.System.{Status, running, failed, succeed, end, message}
use lastore_daemon.Job.{Job}
use lastore_daemon.Job.Transition.{
  Hooks, Outcome, Effect, signal, pre_hook, after_hook, real_running_hook, transition_once,
  transition, valid_transition, is_some,
}
use lastore_daemon.Job.Transition.Edges.{IsQuiet, entered, transition_settles}

abbrev pub signals : List Effect → List Status
signals [] = []
signals (signal s ∷ es) = s ∷ signals es
signals (_ ∷ es) = signals es

signals-append : (es fs : List Effect) → signals (es ++ fs) ≡ signals es ++ signals fs
signals-append [] fs = refl
signals-append (signal s ∷ es) fs = ap (◌∷◌ s) (signals-append es fs)
signals-append (pre_hook s ∷ es) fs = signals-append es fs
signals-append (after_hook s ∷ es) fs = signals-append es fs
signals-append (real_running_hook ∷ es) fs = signals-append es fs

module _ {F : Type 0} where
  -- A transition that the table does not allow changes nothing, runs no hook, sends no signal and
  -- is an error.
  pub transition_refused :
      (fuel : ℕ) (h : Hooks F) (j : Job F) (to : Status)
      → valid_transition j.status to ≡ false
      → transition (suc fuel) h j to
        ≡ some (record { job = j; trace = []; error = some (message "can't transition") })
  unfolding transition transition_once
  transition_refused fuel h j to e = ground arith

  -- A job that has ended refuses every transition, whatever its hooks: nothing changes, no hook
  -- runs, no signal is sent, and it is an error.
  pub transition_end :
      (fuel : ℕ) (h : Hooks F) (j : Job F) (to : Status)
      → j.status ≡ end
      → transition (suc fuel) h j to
        ≡ some (record { job = j; trace = []; error = some (message "can't transition") })
  unfolding valid_transition
  transition_end fuel h j to e = transition_refused fuel h j to (ground arith)

  -- A running job that fails with retries left is marked as failed in silence: no hook runs, no
  -- signal is sent, and there is no error.
  pub transition_retry :
      (fuel : ℕ) (h : Hooks F) (j : Job F)
      → j.status ≡ running
      → ltb_ℤ (pos 0) j.retry ≡ true
      → transition (suc fuel) h j failed
        ≡ some (record { job = record j { status = failed }; trace = []; error = none })
  unfolding transition transition_once valid_transition
  transition_retry fuel h j e r = ground arith

  module _ (h : Hooks F) (q : IsQuiet h) (bus : h.not_use_dbus ≡ false) where
    once_next : (j : Job F) (to : Status) → (transition_once h j to).0.job.next ≡ j.next
    unfolding transition_once
    once_next j to = ground (arith, q.pre_next to j, q.after_next to (entered h j to))

    once_succeed :
        (j : Job F)
        → j.status ≡ running
        → (transition_once h j succeed).0.error ≡ none
        → ((transition_once h j succeed).1 ≡ true)
          × (signals (transition_once h j succeed).0.trace
              ≡ (if is_some j.next then [] else succeed ∷ []))
          × ((transition_once h j succeed).0.job.status ≡ succeed)
    unfolding transition_once valid_transition
    once_succeed j e ok = ground (arith, q.after_status succeed (entered h j succeed))

    once_end_signals :
        (j : Job F)
        → j.status ≡ succeed
        → (signals (transition_once h j end).0.trace ≡ (if is_some j.next then [] else end ∷ []))
          × ((transition_once h j end).0.error ≡ none)
          × ((transition_once h j end).0.job.status ≡ end)
    unfolding transition_once valid_transition
    once_end_signals j e = ground (arith, q.after_status end (entered h j end))

    once_again_ok :
        (j : Job F) (to : Status)
        → (transition_once h j to).1 ≡ true
        → (transition_once h j to).0.error ≡ none
    unfolding transition_once
    once_again_ok j to e = ground arith

    -- With hooks that leave the status and the following job alone, and the bus in use, a running
    -- job that passes to `succeed` without an error goes on to `end` within the one call, and
    -- reports both states unless another job follows it: then a client sees no signal at all.
    pub transition_succeed :
        (fuel : ℕ) (j : Job F) (o : Outcome F)
        → j.status ≡ running
        → transition (suc (suc fuel)) h j succeed ≡ some o
        → o.error ≡ none
        → (o.job.status ≡ end)
          × (signals o.trace ≡ (if is_some j.next then [] else succeed ∷ end ∷ []))
    transition_succeed fuel j o e r ok =
        let j' = (transition_once h j succeed).0.job in
        ground (
          arith,
          transition_settles h q fuel j succeed,
          once_again_ok j succeed,
          once_succeed j e,
          once_end_signals j',
          once_next j succeed,
          signals-append (transition_once h j succeed).0.trace (transition_once h j' end).0.trace,
        )
