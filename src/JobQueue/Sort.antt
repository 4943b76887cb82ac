-- ===== src/JobQueue/Sort.antt =====
-- `sort.Sort` of Go's library, as the code uses it. It is not stable, and the order that the code
-- gives it is no strict order, so that nothing is known of the result but this:
-- it rearranges the list.
use mathlib.Core.List.{Perm}
use lastore_daemon.Base.{ℕ, Bool, List}

pub record Sorter : Type 0 where
  pub sort : (ℕ → ℕ → Bool) → List ℕ → List ℕ
  pub sort-perm : (less : ℕ → ℕ → Bool) (ps : List ℕ) → Perm (sort less ps) ps
