-- ===== src/RateLimit.antt =====
-- Limits of the delivery service (src/internal/ratelimit/ratelimit.go).
pub mod Bounds
pub mod Sent
pub mod Examples
use lastore_daemon.Base.{
  ℕ, ◌+◌, ◌*◌, ◌-◌, ◌%◌, ◌^◌, ltb, Bool, true, false, not, ◌&&◌, ◌||◌, Option, none, some, String,
  str_eq, if◌then◌else◌, ◌==◌,
}
use lastore_daemon.Base.Int.{ℤ, pos, negsuc, ltb_ℤ, int_eq}

-- In bytes per second.
abbrev pub default_rate_limit : ℤ
default_rate_limit = pos 10485760

abbrev pub min_rate_limit : ℤ
min_rate_limit = pos 10240

abbrev pub max_rate_limit : ℤ
max_rate_limit = pos 1023998976

abbrev pub type_no : ℤ
type_no = pos 0

abbrev pub type_local : ℤ
type_local = pos 1

abbrev pub type_remote : ℤ
type_remote = pos 2

-- `RateInfo`; none is the zero value of a time.
pub record RateInfo : Type 0 where
  pub limit_type : ℤ
  pub start_time : Option ℕ
  pub end_time : Option ℕ
  pub limit_rate : ℤ
  pub current_rate : ℤ

-- `RateLimitWithTime`
pub record RateLimitWithTime : Type 0 where
  pub start_time : String
  pub end_time : String
  pub rate_limit : ℤ
  pub typ : ℤ

pub record SyncLimit : Type 0 where
  pub all_day : Option RateLimitWithTime
  pub free_time : Option RateLimitWithTime
  pub busy_time : Option RateLimitWithTime

-- `IPFSLimitRate`
pub record LimitRate : Type 0 where
  pub global_remote : Option RateInfo
  pub global_local : Option RateInfo
  pub busy_remote : Option RateInfo
  pub busy_local : Option RateInfo
  pub free_remote : Option RateInfo
  pub free_local : Option RateInfo

-- What an `int64` holds of a number.
abbrev pub to_int64 : ℤ → ℤ
to_int64 (pos n) = let m = n % 2 ^ 64 in if ltb m (2 ^ 63) then pos m else negsuc (2 ^ 64 - 1 - m)
to_int64 (negsuc n) =
    let m = n % 2 ^ 64 in if ltb m (2 ^ 63) then negsuc m else pos (2 ^ 64 - 1 - m)

-- From KB to bytes, `int64(r) * 1024`.
unfoldable pub bytes_of : ℤ → ℤ
bytes_of (pos n) = to_int64 (pos (n * 1024))
bytes_of (negsuc n) = to_int64 (negsuc (n * 1024 + 1023))

abbrev pub parse_set : (String → Option ℕ) → String → Option ℕ
parse_set parse t = if not (str_eq t "") then parse t else none

-- `convertRateLimitWithTimeToRateInfo` of a limit that is not nil; `parse` is `time.Parse`.
unfoldable pub convert : (String → Option ℕ) → RateLimitWithTime → RateInfo
unfolding bytes_of
convert parse r =
    let limited = int_eq r.typ (pos 1) in
    record {
      limit_type = if limited then type_remote else type_no;
      start_time = parse_set parse r.start_time;
      end_time = parse_set parse r.end_time;
      limit_rate = if limited then bytes_of r.rate_limit else default_rate_limit;
      current_rate = if limited then bytes_of r.rate_limit else default_rate_limit;
    }

abbrev pub chosen : (String → Option ℕ) → Option RateLimitWithTime → Option RateInfo
chosen parse none = none
chosen parse (some r) = if int_eq r.typ (pos 1) then some (convert parse r) else none

abbrev pub converted : (String → Option ℕ) → Option RateLimitWithTime → Option RateInfo
converted parse none = none
converted parse (some r) = some (convert parse r)

-- `GetIPFSLimitRateBySyncLimit`
unfoldable pub limit_rate_of : (String → Option ℕ) → SyncLimit → LimitRate
unfolding convert
limit_rate_of parse s = record {
  global_remote = converted parse s.all_day;
  global_local = none;
  busy_remote = chosen parse s.busy_time;
  busy_local = none;
  free_remote = chosen parse s.free_time;
  free_local = none;
}

abbrev pub drop_unset : Option RateInfo → Option RateInfo
drop_unset none = none
drop_unset (some r) = if int_eq r.limit_type (pos 0) then none else some r

-- What `SetIPFSRateLimit` sends of the limits for one direction; it does this for both alike.
unfoldable pub sent : LimitRate → LimitRate
sent l = record l {
  global_remote = drop_unset l.global_remote;
  busy_remote = drop_unset l.busy_remote;
  free_remote = drop_unset l.free_remote;
  busy_local = drop_unset l.busy_local;
  free_local = drop_unset l.free_local;
}

-- `LocalRateLimitConfig`
pub record LocalConfig : Type 0 where
  pub global : Option RateInfo
  pub busy : Option RateInfo
  pub free : Option RateInfo

abbrev pub checked_rate : ℤ → ℤ
checked_rate n = if ltb_ℤ n min_rate_limit || ltb_ℤ max_rate_limit n then default_rate_limit else n

-- `ValidateRateInfo`
unfoldable pub validate_rate_info : Option RateInfo → Option RateInfo
validate_rate_info none = none
validate_rate_info (some r) = some (record r {
  limit_rate = checked_rate r.limit_rate;
  current_rate = checked_rate r.current_rate;
})

-- `Validate`
unfoldable pub validate : LocalConfig → LocalConfig
unfolding validate_rate_info
validate c = record {
  global = validate_rate_info c.global;
  busy = validate_rate_info c.busy;
  free = validate_rate_info c.free;
}

-- `GetLocalRateLimitFromConfig`; `decode` is `json.Unmarshal`, none where it reports an error.
unfoldable pub get_local_rate_limit_from_config :
    (String → Option RateInfo) → String → String → String → LocalConfig
get_local_rate_limit_from_config decode global_limit peak_limit off_peak_limit = record {
  global = if str_eq global_limit "" then none else decode global_limit;
  busy = if str_eq peak_limit "" then none else decode peak_limit;
  free = if str_eq off_peak_limit "" then none else decode off_peak_limit;
}

abbrev pub no_limit : RateInfo
no_limit = record {
  limit_type = type_no;
  start_time = none;
  end_time = none;
  limit_rate = default_rate_limit;
  current_rate = default_rate_limit;
}

abbrev pub or_no_limit : Option RateInfo → RateInfo
or_no_limit none = no_limit
or_no_limit (some r) = r

-- `UpdateDeliverySpeedLimit` puts the local limits beside those of the server.
unfoldable pub with_local : LocalConfig → LimitRate → LimitRate
unfolding validate
with_local c l =
    let checked = validate (record c { global = some (or_no_limit c.global) }) in
    record l { global_local = checked.global; busy_local = checked.busy; free_local = checked.free }

-- What `UpdateDeliverySpeedLimit` has the delivery service set for uploads and downloads; none
-- where the server gave no limits for one of them, and nothing is set.
unfoldable pub update_delivery_speed_limit :
    (String → Option ℕ)
    → Option SyncLimit
    → Option SyncLimit
    → LocalConfig
    → LocalConfig
    → Option (LimitRate × LimitRate)
unfolding limit_rate_of with_local sent
update_delivery_speed_limit parse (some up) (some down) local_up local_down = some (
  sent (with_local local_up (limit_rate_of parse up)),
  sent (with_local local_down (limit_rate_of parse down)),
)
update_delivery_speed_limit parse none down local_up local_down = none
update_delivery_speed_limit parse (some up) none local_up local_down = none
