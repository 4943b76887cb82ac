-- ===== src/Base/Assoc.antt =====
-- Go's maps with text keys, as association lists: what is found after each kind of write, and that
-- a key stays the only one.
use Prim.Native.String.{String}
use mathlib.Core.Path.{◌≡◌, refl}
use mathlib.Core.Bool.{Bool, true, false, not, ◌&&◌, ◌||◌}
use mathlib.Core.Option.{Option, none, some}
use mathlib.Core.List.{List, [], ◌∷◌}
use Prim.Native.Nat.{suc, ◌≤◌}
use native.Mathlib.Omega.{arith}
use text.Mathlib.Text.{◌==◌ as str_eq}
use text.Mathlib.TextEquality.{eq_iff}
use lastore_daemon.Base.Tests.{if◌then◌else◌}
use lastore_daemon.Base.Lists.{length}

abbrev pub Assoc {ℓ} : Type ℓ → Type ℓ
Assoc V = List (String × V)

module _ {ℓ} {V : Type ℓ} where
  unfoldable pub lookup : String → Assoc V → Option V
  lookup k [] = none
  lookup k (first ∷ rest) = if str_eq first.0 k then some first.1 else lookup k rest

  -- `delete(m, k)`.
  unfoldable pub erase : String → Assoc V → Assoc V
  erase k [] = []
  erase k ((j, w) ∷ m) = if str_eq j k then erase k m else (j, w) ∷ erase k m

  -- The write `m[k] = v`.
  unfoldable pub insert : String → V → Assoc V → Assoc V
  insert k v [] = (k, v) ∷ []
  insert k v ((j, w) ∷ m) =
      let rest = insert k v m in if str_eq j k then (k, v) ∷ m else (j, w) ∷ rest

  -- The keys that stay are those whose value passes the test.
  unfoldable pub keep_values : (V → Bool) → Assoc V → Assoc V
  keep_values p [] = []
  keep_values p ((j, w) ∷ m) = if p w then (j, w) ∷ keep_values p m else keep_values p m

  -- A value is changed in place.
  unfoldable pub map_values : (V → V) → Assoc V → Assoc V
  map_values f [] = []
  map_values f ((j, w) ∷ m) = (j, f w) ∷ map_values f m

  -- Whether a key is there.
  unfoldable pub has_key : String → Assoc V → Bool
  has_key k [] = false
  has_key k ((j, w) ∷ m) = str_eq j k || has_key k m

  -- No key twice.
  unfoldable pub distinct : Assoc V → Bool
  unfolding has_key
  distinct [] = true
  distinct ((j, w) ∷ m) = not (has_key j m) && distinct m

  -- All values pass the test.
  unfoldable pub all_values : (V → Bool) → Assoc V → Bool
  all_values p [] = true
  all_values p ((j, w) ∷ m) = p w && all_values p m

  pub lookup-erase :
      (k j : String) (m : Assoc V)
      → lookup j (erase k m) ≡ (if str_eq k j then none else lookup j m)
  unfolding lookup erase
  lookup-erase key other [] = ground arith
  lookup-erase key other (first ∷ rest) = ground (
    arith,
    eq_iff key other,
    eq_iff first.0 key,
    lookup-erase key other rest,
    eq_iff first.0 other,
  )

  has_key-insert :
      (k j : String) (v : V) (m : Assoc V) → has_key j (insert k v m) ≡ (str_eq k j || has_key j m)
  unfolding has_key insert
  has_key-insert k j v [] = refl
  has_key-insert k j v ((i, w) ∷ m) =
      ground (arith, eq_iff k j, eq_iff i k, eq_iff i j, has_key-insert k j v m)

  pub lookup-insert :
      (k j : String) (v : V) (m : Assoc V)
      → lookup j (insert k v m) ≡ (if str_eq k j then some v else lookup j m)
  unfolding lookup insert
  lookup-insert key other value [] = refl
  lookup-insert key other value (first ∷ rest) = ground (
    arith,
    lookup-insert key other value rest,
    eq_iff first.0 other,
    eq_iff first.0 key,
    eq_iff key other,
  )

  pub insert-distinct :
      (k : String) (v : V) (m : Assoc V) → distinct m ≡ true → distinct (insert k v m) ≡ true
  unfolding distinct insert
  insert-distinct k v [] d = refl
  insert-distinct k v ((i, w) ∷ m) d =
      ground (arith, eq_iff i k, eq_iff k i, has_key-insert k i v m, insert-distinct k v m)

  has_key-erase : (k j : String) (m : Assoc V) → has_key j m ≡ false → has_key j (erase k m) ≡ false
  unfolding has_key erase
  has_key-erase k j [] h = refl
  has_key-erase k j ((i, w) ∷ m) h = ground (arith, has_key-erase k j m)

  pub erase-distinct : (k : String) (m : Assoc V) → distinct m ≡ true → distinct (erase k m) ≡ true
  unfolding distinct erase
  erase-distinct k [] d = refl
  erase-distinct k ((i, w) ∷ m) d = ground (arith, has_key-erase k i m, erase-distinct k m)

  has_key-keep_values :
      (p : V → Bool) (j : String) (m : Assoc V)
      → has_key j m ≡ false
      → has_key j (keep_values p m) ≡ false
  unfolding has_key keep_values
  has_key-keep_values p j [] h = refl
  has_key-keep_values p j ((i, w) ∷ m) h = ground (arith, has_key-keep_values p j m)

  pub keep_values-distinct :
      (p : V → Bool) (m : Assoc V) → distinct m ≡ true → distinct (keep_values p m) ≡ true
  unfolding distinct keep_values
  keep_values-distinct p [] d = refl
  keep_values-distinct p ((i, w) ∷ m) d =
      ground (arith, has_key-keep_values p i m, keep_values-distinct p m)

  pub length-insert : (k : String) (v : V) (m : Assoc V) → length (insert k v m) ≤ suc (length m)
  unfolding insert
  length-insert k v [] = omega arith
  length-insert k v ((i, w) ∷ m) = ground (arith, length-insert k v m)

  pub length-erase : (k : String) (m : Assoc V) → length (erase k m) ≤ length m
  unfolding erase
  length-erase k [] = omega arith
  length-erase k ((i, w) ∷ m) = ground (arith, length-erase k m)

  pub length-keep_values : (p : V → Bool) (m : Assoc V) → length (keep_values p m) ≤ length m
  unfolding keep_values
  length-keep_values p [] = omega arith
  length-keep_values p ((i, w) ∷ m) = ground (arith, length-keep_values p m)

  pub all_values-insert :
      (p : V → Bool) (k : String) (v : V) (m : Assoc V)
      → p v ≡ true
      → all_values p m ≡ true
      → all_values p (insert k v m) ≡ true
  unfolding all_values insert
  all_values-insert p k v [] e h = ground arith
  all_values-insert p k v ((i, w) ∷ m) e h = ground (arith, all_values-insert p k v m e)

  pub all_values-erase :
      (p : V → Bool) (k : String) (m : Assoc V)
      → all_values p m ≡ true
      → all_values p (erase k m) ≡ true
  unfolding all_values erase
  all_values-erase p k [] h = refl
  all_values-erase p k ((i, w) ∷ m) h = ground (arith, all_values-erase p k m)

  pub all_values-lookup :
      (p : V → Bool) (k : String) (m : Assoc V) (v : V)
      → all_values p m ≡ true
      → lookup k m ≡ some v
      → p v ≡ true
  unfolding all_values lookup
  all_values-lookup p k [] v h e = absurd (cc)
  all_values-lookup p k ((i, w) ∷ m) v h e = ground (arith, all_values-lookup p k m v)

  pub lookup-none : (k : String) (m : Assoc V) → has_key k m ≡ false → lookup k m ≡ none
  unfolding has_key lookup
  lookup-none k [] h = refl
  lookup-none k ((i, w) ∷ m) h = ground (arith, lookup-none k m)

  abbrev pub filter_option : (V → Bool) → Option V → Option V
  filter_option p none = none
  filter_option p (some v) = if p v then some v else none

  pub lookup-keep_values :
      (p : V → Bool) (k : String) (m : Assoc V)
      → distinct m ≡ true
      → lookup k (keep_values p m) ≡ filter_option p (lookup k m)
  unfolding distinct lookup keep_values
  lookup-keep_values p k [] d = refl
  lookup-keep_values p k ((i, w) ∷ m) d = ground (
    arith,
    eq_iff i k,
    lookup-keep_values p k m,
    lookup-none k (keep_values p m),
    has_key-keep_values p k m,
  )

  pub lookup-map_values :
      (f : V → V) (k : String) (m : Assoc V)
      → lookup k (map_values f m) ≡ (elim (lookup k m) [ none ↦ none | some v ↦ some (f v) ])
  unfolding lookup map_values
  lookup-map_values f k [] = refl
  lookup-map_values f k ((i, w) ∷ m) = ground (arith, lookup-map_values f k m)

  has_key-map_values :
      (f : V → V) (k : String) (m : Assoc V) → has_key k (map_values f m) ≡ has_key k m
  unfolding has_key map_values
  has_key-map_values f k [] = refl
  has_key-map_values f k ((i, w) ∷ m) = ground (arith, has_key-map_values f k m)

  pub map_values-distinct :
      (f : V → V) (m : Assoc V) → distinct m ≡ true → distinct (map_values f m) ≡ true
  unfolding distinct map_values
  map_values-distinct f [] d = refl
  map_values-distinct f ((i, w) ∷ m) d =
      ground (arith, has_key-map_values f i m, map_values-distinct f m)

  pub all_values-map_values :
      (p : V → Bool) (f : V → V) (m : Assoc V)
      → ((v : V) → p v ≡ true → p (f v) ≡ true)
      → all_values p m ≡ true
      → all_values p (map_values f m) ≡ true
  unfolding all_values map_values
  all_values-map_values p f [] g h = refl
  all_values-map_values p f ((i, w) ∷ m) g h = ground (arith, g w, all_values-map_values p f m g)
