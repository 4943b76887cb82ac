-- ===== src/Peaks.antt =====
-- The speed limits that the update platform sets for the day, the peak and the off-peak hours
-- (src/lastore-daemon/manager_download.go and peakOffPeakMonitor.go).
pub mod Ranges
pub mod Refresh
pub mod Examples
use lastore_daemon.Base.{
  ℕ, Bool, true, false, not, ◌&&◌, ◌||◌, List, [], ◌∷◌, Option, none, some, String, if◌then◌else◌,
  ltb,
}
use lastore_daemon.Base.Int.{ℤ, pos}

-- `AllDayRateLimit`
pub record AllDayRateLimit : Type 0 where
  pub bps : ℤ
  pub enable : Bool

-- `PeakOrNotTimeRateLimit`
pub record TimeRateLimit : Type 0 where
  pub enable : Bool
  pub start_time : String
  pub end_time : String
  pub bps : ℤ

pub record OnlineRateLimit : Type 0 where
  pub all_day : AllDayRateLimit
  pub peak : TimeRateLimit
  pub off_peak : TimeRateLimit

-- `downloadSpeedLimitConfig`
pub record SpeedLimitConfig : Type 0 where
  pub enabled : Bool
  pub limit_speed : String
  pub is_online : Bool

pub data TimeState : Type 0 where
  unknown peak_time off_peak_time : TimeState

abbrev pub state_eq : TimeState → TimeState → Bool
state_eq unknown unknown = true
state_eq peak_time peak_time = true
state_eq off_peak_time off_peak_time = true
state_eq _ _ = false

-- What the monitor reads: the limits of the platform, `parseTime` (in seconds of the day; none is its
-- error), `strconv.Itoa`, and what `json.Unmarshal` gives for the local configuration.
pub record Context : Type 0 where
  pub limits : OnlineRateLimit
  pub parse_time : String → Option ℕ
  pub itoa : ℤ → String
  pub local : Option SpeedLimitConfig

-- `isTimeInRange`, when the three times can be read.
abbrev pub in_range : ℕ → ℕ → ℕ → Bool
in_range now start end =
    if ltb start end then ltb start now && ltb now end else ltb start now || ltb now end

-- `isTimeInRange`
unfoldable pub is_time_in_range : (String → Option ℕ) → String → String → String → Bool
is_time_in_range parse now start end = elim (parse now) [
  | none ↦ false
  | some n ↦ elim (parse start) [
    | none ↦ false
    | some s ↦ elim (parse end) [ none ↦ false | some e ↦ in_range n s e ]
  ]
]

abbrev pub default_speed_limit : ℤ
default_speed_limit = pos 1024

module _ (c : Context) where
  -- `getCurrentTimeState`
  unfoldable pub current_time_state : String → TimeState
  unfolding is_time_in_range
  current_time_state now =
      let peak = c.limits.peak in
      let off = c.limits.off_peak in
      if is_time_in_range c.parse_time now peak.start_time peak.end_time && peak.enable
      then peak_time
      else if is_time_in_range c.parse_time now off.start_time off.end_time && off.enable
      then off_peak_time
      else unknown

  abbrev pub online_limit : ℤ → SpeedLimitConfig
  online_limit bps = record { enabled = true; limit_speed = c.itoa bps; is_online = true }

  -- `getDownloadSpeedLimitConfigByTimeState`
  unfoldable pub config_of_state : TimeState → SpeedLimitConfig
  config_of_state peak_time = online_limit c.limits.peak.bps
  config_of_state off_peak_time = online_limit c.limits.off_peak.bps
  config_of_state unknown = elim c.local [
    | some config ↦ config
    | none ↦ record { enabled = true; limit_speed = c.itoa default_speed_limit; is_online = false }
  ]

  -- `applyOnlineRateLimit`; with a limit for the day the configuration that it starts from is
  -- overwritten in all its fields.
  unfoldable pub apply_online_rate_limit : SpeedLimitConfig → String → SpeedLimitConfig
  unfolding config_of_state current_time_state
  apply_online_rate_limit config now =
      if c.limits.all_day.enable
      then record config {
        limit_speed = c.itoa c.limits.all_day.bps;
        is_online = true;
        enabled = true;
      }
      else config_of_state (current_time_state now)

-- `PeakOffPeakMonitor`, with the configuration of the updater that it sets. `running` tells whether
-- its goroutine was started and not stopped.
pub record Monitor : Type 0 where
  pub server_time : String
  pub stopped : Bool
  pub running : Bool
  pub last_time_state : TimeState
  pub config : SpeedLimitConfig

module _ (c : Context) where
  -- `setEffectiveOnlineRateLimit`
  unfoldable pub set_effective : String → Monitor → Monitor
  unfolding apply_online_rate_limit
  set_effective now m = record m { config = apply_online_rate_limit c m.config now }

  unfoldable pub need_monitor : Bool
  need_monitor = c.limits.peak.enable || c.limits.off_peak.enable

  -- `Start`, at the time `now` that `getCurrentTime` gives.
  unfoldable pub start : String → Monitor → Monitor
  unfolding set_effective need_monitor
  start now m =
      if c.limits.all_day.enable
      then record (set_effective m.server_time m) { stopped = true }
      else if not need_monitor
      then record m { stopped = true }
      else record (set_effective m.server_time m) {
        last_time_state = current_time_state c now;
        running = true;
      }

  -- `refresh`
  unfoldable pub refresh : String → Monitor → Monitor
  unfolding set_effective
  refresh now m =
      let state = current_time_state c now in
      if not (state_eq state m.last_time_state)
      then record (set_effective now m) { last_time_state = state }
      else m

-- `Stop`, which waits for the goroutine.
unfoldable pub stop : Monitor → Monitor
stop m = if m.stopped then m else record m { stopped = true; running = false }
