-- ===== src/Peaks/Examples.antt =====
-- A day with peak hours, and the theorems at it.
use lastore_daemon.Base.{
  ℕ, true, false, not, ◌&&◌, [], ◌∷◌, Option, none, some, String, str_eq, ◌≡◌, refl, arith,
  if◌then◌else◌, ◌==◌,
}
use lastore_daemon.Base.Int.{pos}
use lastore_daemon.Peaks.{
  Context, Monitor, unknown, is_time_in_range, current_time_state, config_of_state, need_monitor,
  start, refresh,
}
use lastore_daemon.Peaks.Ranges.{is_time_in_range-swap}
use lastore_daemon.Peaks.Refresh.{refresh_all, last_time, refresh_all-config}

abbrev clock : String → Option ℕ
clock t =
    if str_eq t "08:00"
    then some 28800
    else if str_eq t "12:00"
    then some 43200
    else if str_eq t "22:00"
    then some 79200
    else if str_eq t "23:30"
    then some 84600
    else none

abbrev context : Context
context = record {
  limits = record {
    all_day = record { bps = pos 0; enable = false };
    peak = record { enable = true; start_time = "08:00"; end_time = "22:00"; bps = pos 100 };
    off_peak = record { enable = true; start_time = "22:00"; end_time = "08:00"; bps = pos 900 };
  };
  parse_time = clock;
  itoa = λ n. "limit";
  local = none;
}

abbrev monitor : Monitor
monitor = record {
  server_time = "12:00";
  stopped = false;
  running = false;
  last_time_state = unknown;
  config = record { enabled = false; limit_speed = ""; is_online = false };
}

-- The end of the peak hours, which is the start of the others, is in neither.
between : current_time_state context "22:00" ≡ unknown
unfolding current_time_state
between = refl

-- The server's time cannot be read, and the local clock says that it is a peak hour: after the start
-- and a refresh the limit of the peak hours is not in force.
unread :
    (refresh context "12:00" (start context "12:00" (record monitor { server_time = "" }))).config
    ≡ config_of_state context unknown
unfolding start refresh
unread = refl

is_time_in_range-swap_example : is_time_in_range clock "23:30" "08:00" "22:00" ≡ (
    not (is_time_in_range clock "23:30" "22:00" "08:00")
    && not (84600 == 28800)
    && not (84600 == 79200))
is_time_in_range-swap_example =
    is_time_in_range-swap clock "23:30" "08:00" "22:00" 84600 28800 79200 refl refl refl
      (λ e. omega (arith, e))

refresh_all-config_example :
    (refresh_all context ("22:00" ∷ "23:30" ∷ []) (start context "12:00" monitor)).config
    ≡ config_of_state context
        (current_time_state context (last_time context "12:00" ("22:00" ∷ "23:30" ∷ [])))
unfolding need_monitor
refresh_all-config_example =
    refresh_all-config context monitor "12:00" ("22:00" ∷ "23:30" ∷ []) refl refl refl
