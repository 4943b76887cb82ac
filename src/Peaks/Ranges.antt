-- ===== src/Peaks/Ranges.antt =====
-- The times of day that a range of hours holds (`isTimeInRange` of
-- src/lastore-daemon/manager_download.go).
use lastore_daemon.Base.{ℕ, not, ◌&&◌, Option, some, String, ◌≡◌, refl, ◌≢◌, ◌==◌, arith}
use lastore_daemon.Peaks.{in_range, is_time_in_range}

in_range-swap :
    (n s e : ℕ) → s ≢ e → in_range n s e ≡ (not (in_range n e s) && not (n == s) && not (n == e))
in_range-swap n s e d = ground (arith, d)

read_range :
    (parse : String → Option ℕ) (now a b : String) (n s e : ℕ)
    → parse now ≡ some n
    → parse a ≡ some s
    → parse b ≡ some e
    → is_time_in_range parse now a b ≡ in_range n s e
unfolding is_time_in_range
read_range parse now a b n s e hn ha hb = rw (hn, is_time_in_range, ha, hb) refl

-- Of two ranges that share their ends, the ends being two times, a time is in the one exactly when it
-- is not in the other and is neither of the ends: the ends themselves are in no range.
pub is_time_in_range-swap :
    (parse : String → Option ℕ) (now a b : String) (n s e : ℕ)
    → parse now ≡ some n
    → parse a ≡ some s
    → parse b ≡ some e
    → s ≢ e
    → is_time_in_range parse now a b
      ≡ (not (is_time_in_range parse now b a) && not (n == s) && not (n == e))
is_time_in_range-swap parse now a b n s e hn ha hb d = ground (
  arith,
  in_range-swap n s e d,
  read_range parse now a b n s e hn ha hb,
  read_range parse now b a n e s hn hb ha,
)
