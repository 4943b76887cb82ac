-- ===== src/Base/Float.antt =====
-- The type `float64`, which the kernel does not compute with: its operations as a parameter.
use lastore_daemon.Base.Int.{ℤ}
use Prim.Native.Nat.{ℕ}
use mathlib.Core.Bool.{Bool}

-- `lit n k` is the constant n / 10 ^ k. `estimate` is the conversion to `int64` of
-- `1.024 * (new - old) * size / seconds`, its last argument in nanoseconds.
pub record Float : Type 1 where
  pub Carrier : Type 0
  pub lit : ℕ → ℕ → Carrier
  pub add : Carrier → Carrier → Carrier
  pub sub : Carrier → Carrier → Carrier
  pub mul : Carrier → Carrier → Carrier
  pub div : Carrier → Carrier → Carrier
  pub lt : Carrier → Carrier → Bool
  pub le : Carrier → Carrier → Bool
  pub eq : Carrier → Carrier → Bool
  pub estimate : Carrier → Carrier → ℤ → ℕ → ℤ
