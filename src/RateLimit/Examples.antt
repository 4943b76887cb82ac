-- ===== src/RateLimit/Examples.antt =====
-- Limits of one configuration, and the theorems at them.
use lastore_daemon.Base.{
  ℕ, ◌-◌, ◌^◌, true, Option, none, some, String, str_eq, ◌≡◌, ◌↔◌, refl, if◌then◌else◌,
}
use lastore_daemon.Base.Int.{pos, negsuc}
use lastore_daemon.RateLimit.{
  RateInfo, SyncLimit, LocalConfig, type_local, default_rate_limit, validate, validate_rate_info,
  update_delivery_speed_limit, get_local_rate_limit_from_config, bytes_of,
}
use lastore_daemon.RateLimit.Bounds.{is_checked, validate-is_checked}
use lastore_daemon.RateLimit.Sent.{
  chosen_limits, is_bounded, update_delivery_speed_limit-chosen_limits,
}

abbrev too_slow : RateInfo
too_slow = record {
  limit_type = type_local;
  start_time = none;
  end_time = none;
  limit_rate = pos 5;
  current_rate = pos 20480;
}

abbrev config : LocalConfig
config = record { global = some too_slow; busy = none; free = none }

slow_is_default :
    validate_rate_info (some too_slow) ≡ some (record too_slow { limit_rate = default_rate_limit })
unfolding validate_rate_info
slow_is_default = refl

abbrev clock : String → Option ℕ
clock t = none

abbrev limits : SyncLimit
limits = record {
  all_day = some (record { start_time = ""; end_time = ""; rate_limit = pos 7; typ = pos 2 });
  free_time = none;
  busy_time = some (record { start_time = "8"; end_time = ""; rate_limit = pos 7; typ = pos 1 });
}

validate-is_checked_example :
    (is_checked (validate config) ≡ true)
    × ((validate config ≡ config) ↔ (is_checked config ≡ true))
    × (validate (validate config) ≡ validate config)
validate-is_checked_example = validate-is_checked config

abbrev configured : LocalConfig
configured =
    get_local_rate_limit_from_config (λ text. if str_eq text "slow" then some too_slow else none) ""
      "slow" "broken"

update_delivery_speed_limit-chosen_limits_example :
    (update_delivery_speed_limit clock (some limits) (some limits) config configured
      ≡ some (chosen_limits clock limits config, chosen_limits clock limits configured))
    × (is_bounded (chosen_limits clock limits config) ≡ true)
    × (is_bounded (chosen_limits clock limits configured) ≡ true)
update_delivery_speed_limit-chosen_limits_example =
    update_delivery_speed_limit-chosen_limits clock limits limits config configured

-- 2 ^ 53 KB are 2 ^ 63 bytes, which an `int64` takes for the smallest number.
bytes_wrap : bytes_of (pos (2 ^ 53)) ≡ negsuc (2 ^ 63 - 1)
unfolding bytes_of
bytes_wrap = refl
