-- ===== src/Peaks/Refresh.antt =====
-- The limit that the monitor of peak hours keeps in force
-- (src/lastore-daemon/peakOffPeakMonitor.go).
use lastore_daemon.Base.{
  true, false, not, List, [], ◌∷◌, String, ◌≡◌, refl, sym, ap, ◌∙◌, subst, arith, if◌then◌else◌,
  Bool-cases, inl, inr,
}
use lastore_daemon.Peaks.{
  Context, Monitor, TimeState, state_eq, current_time_state, config_of_state,
  apply_online_rate_limit, set_effective, need_monitor, start, refresh,
}

state_eq→≡ : (s t : TimeState) → state_eq s t ≡ true → s ≡ t
state_eq→≡ s t e = ground (arith, e)

module _ (c : Context) where
  -- The monitor after refreshes at some times.
  abbrev pub refresh_all : List String → Monitor → Monitor
  refresh_all [] m = m
  refresh_all (now ∷ times) m = refresh_all times (refresh c now m)

  -- The last of some times.
  abbrev pub last_time : String → List String → String
  last_time now [] = now
  last_time now (t ∷ times) = last_time t times

  same :
      (now : String) (m : Monitor)
      → state_eq (current_time_state c now) m.last_time_state ≡ true
      → refresh c now m ≡ m
  unfolding refresh
  same now m e = rw (e, refresh, if◌then◌else◌) refl

  changed :
      (now : String) (m : Monitor)
      → state_eq (current_time_state c now) m.last_time_state ≡ false
      → refresh c now m ≡ (
          let m' : Monitor = set_effective c now m in
          record m' { last_time_state = current_time_state c now })
  unfolding refresh
  changed now m e = rw (e, refresh, if◌then◌else◌) refl

  -- The limit in force is that of a state, which is the last one seen.
  InForce : Monitor → TimeState → Type 0
  InForce m s = (m.last_time_state ≡ s) × (m.config ≡ config_of_state c s)

  module _ (not_all_day : c.limits.all_day.enable ≡ false) where
    apply-state :
        (m : Monitor) (now : String)
        → apply_online_rate_limit c m.config now ≡ config_of_state c (current_time_state c now)
    unfolding apply_online_rate_limit
    apply-state m now = rw (not_all_day, if◌then◌else◌) refl

    refresh-InForce :
        (m : Monitor) (s : TimeState) (now : String)
        → InForce m s
        → InForce (refresh c now m) (current_time_state c now)
    unfolding refresh set_effective InForce
    refresh-InForce m s now (seen, force) =
        elim (Bool-cases (state_eq (current_time_state c now) m.last_time_state)) [
          | inl e ↦
              let now_seen = state_eq→≡ (current_time_state c now) m.last_time_state e in
              rw (same now m e)
                (sym now_seen, force ∙ ap (config_of_state c) (sym (now_seen ∙ seen)))
          | inr e ↦ rw (changed now m e) (refl, apply-state m now)
        ]

    refresh_all-InForce :
        (times : List String) (m : Monitor) (now : String)
        → InForce m (current_time_state c now)
        → InForce (refresh_all times m) (current_time_state c (last_time now times))
    refresh_all-InForce [] m now f = f
    refresh_all-InForce (t ∷ times) m now f =
        refresh_all-InForce times (refresh c t m) t
          (refresh-InForce m (current_time_state c now) t f)

    started :
        (m : Monitor) (now : String)
        → need_monitor c ≡ true
        → start c now m ≡ (
            let m' : Monitor = set_effective c m.server_time m in
            record m' { last_time_state = current_time_state c now; running = true })
    unfolding start
    started m now need =
        let m' : Monitor = set_effective c m.server_time m in
        let idle : Monitor = record m { stopped = true } in
        let run : Monitor = record m' {
          last_time_state = current_time_state c now;
          running = true;
        } in
        let day : Monitor = record m' { stopped = true } in
        ap (λ b. if b then day else if not (need_monitor c) then idle else run) not_all_day
        ∙ ap (λ b. if not b then idle else run) need

    start-InForce :
        (m : Monitor) (now : String)
        → need_monitor c ≡ true
        → current_time_state c m.server_time ≡ current_time_state c now
        → InForce (start c now m) (current_time_state c now)
    unfolding start set_effective InForce
    start-InForce m now need same_state =
        subst (λ m'. InForce m' (current_time_state c now)) (sym (started m now need))
          (refl, apply-state m m.server_time ∙ ap (config_of_state c) same_state)

-- When there is no limit for the whole day but one for peak or off-peak hours, and the monitor starts
-- at a time whose state is that of the server's time, then after it has started and after every
-- refresh the limit in force is the one that belongs to the state at that time.
pub refresh_all-config :
    (c : Context) (m : Monitor) (now : String) (times : List String)
    → c.limits.all_day.enable ≡ false
    → need_monitor c ≡ true
    → current_time_state c m.server_time ≡ current_time_state c now
    → (refresh_all c times (start c now m)).config
      ≡ config_of_state c (current_time_state c (last_time c now times))
unfolding InForce
refresh_all-config c m now times all_day need same_state =
    (refresh_all-InForce c all_day times (start c now m) now
      (start-InForce c all_day m now need same_state)).1
