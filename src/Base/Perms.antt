-- ===== src/Base/Perms.antt =====
-- Permutations of lists that are measured by native numbers, and membership in parts of a list.
use Prim.Native.Nat.{ℕ, zero, suc}
use mathlib.Core.Path.{◌≡◌, refl, ap, ◌∙◌, subst, sym}
use mathlib.Core.Bool.{Bool, true}
use mathlib.Core.Option.{some}
use mathlib.Core.Logic.{∥∥₁_elim, inl, inr}
use mathlib.Core.Logic.Or
use mathlib.Core.List.{
  List, [], ◌∷◌, ◌++◌, Mem, Mem-prop, Perm, Permᴰ, mem-cons, mem-cons_of_mem, not-mem-nil, Nodup,
  Nodup-cons,
}
use mathlib.Core.List.Perm
use mathlib.Core.List.Nodup
use native.Mathlib.Nat.{ℕ_set}
use native.Mathlib.Omega.{arith}
use lastore_daemon.Base.Tests.{if◌then◌else◌, Bool-cases}
use lastore_daemon.Base.Lists.{length, take, drop, take-append-drop, get_elem?, set, keep}

module _ {ℓ} {A : Type ℓ} where
  Permᴰ-length : {xs ys : List A} → Permᴰ xs ys → length xs ≡ length ys
  Permᴰ-length Permᴰ.nil = refl
  Permᴰ-length (Permᴰ.cons e p) = ap suc (Permᴰ-length p)
  Permᴰ-length (Permᴰ.swap e f) = refl
  Permᴰ-length (Permᴰ.trans p q) = Permᴰ-length p ∙ Permᴰ-length q

  pub perm-length : {xs ys : List A} → Perm xs ys → length xs ≡ length ys
  perm-length p = ∥∥₁_elim p (ℕ_set _ _) Permᴰ-length

  pub mem-take : (n : ℕ) (xs : List A) {a : A} → Mem a (take n xs) → Mem a xs
  mem-take zero xs m = absurd (not-mem-nil m)
  mem-take (suc n) [] m = m
  mem-take (suc n) (x ∷ xs) m =
      Or.elim Mem-prop (mem-cons.0 m) (λ e. mem-cons.1 (Or.inl e))
        (λ h. mem-cons_of_mem x (mem-take n xs h))

  Kept-prop : (p : A → Bool) (xs : List A) (a : A) → IsProp (Mem a xs × (p a ≡ true))
  Kept-prop p xs a = hlevel Mem-prop

  kept_cons :
      (p : A → Bool) (x : A) (xs : List A) {a : A}
      → Mem a xs × (p a ≡ true)
      → Mem a (x ∷ xs) × (p a ≡ true)
  kept_cons p x xs (m, e) = (mem-cons_of_mem x m, e)

  -- What a filter keeps is in the list and passes the test.
  pub mem-keep : (p : A → Bool) (xs : List A) {a : A} → Mem a (keep p xs) → Mem a xs × (p a ≡ true)
  mem-keep p [] m = absurd (not-mem-nil m)
  mem-keep p (x ∷ xs) {a} m = elim (Bool-cases (p x)) [
    | inl e ↦
        Or.elim (Kept-prop p (x ∷ xs) a)
          (mem-cons.0 (subst (λ b. Mem a (if b then x ∷ keep p xs else keep p xs)) e m))
          (λ here. (mem-cons.1 (Or.inl here), ap p here ∙ e))
          (λ rest. kept_cons p x xs (mem-keep p xs rest))
    | inr e ↦
        kept_cons p x xs
          (mem-keep p xs (subst (λ b. Mem a (if b then x ∷ keep p xs else keep p xs)) e m))
  ]

  pub remove_at-perm :
      (i : ℕ) (xs : List A) {a : A}
      → get_elem? xs i ≡ some a
      → Perm xs (a ∷ (take i xs ++ drop (suc i) xs))
  remove_at-perm i [] e = absurd (cc)
  remove_at-perm zero (x ∷ xs) e = Perm.cons' (ground arith) Perm.rfl
  remove_at-perm (suc i) (x ∷ xs) {a} e =
      Perm.trans (Perm.cons x (remove_at-perm i xs e)) (Perm.swap a x _)

  pub set-perm :
      (i : ℕ) (xs : List A) (x : A) {a : A}
      → get_elem? xs i ≡ some a
      → Perm (x ∷ xs) (a ∷ set xs i x)
  set-perm i [] x e = absurd (cc)
  set-perm zero (y ∷ xs) x e = Perm.trans (Perm.swap y x xs) (Perm.cons' (ground arith) Perm.rfl)
  set-perm (suc i) (y ∷ xs) x {a} e =
      Perm.trans (Perm.swap y x xs) (Perm.trans (Perm.cons y (set-perm i xs x e)) (Perm.swap a y _))

  pub get_elem?-mem : (i : ℕ) (xs : List A) {a : A} → get_elem? xs i ≡ some a → Mem a xs
  get_elem?-mem i [] e = absurd (cc)
  get_elem?-mem zero (x ∷ xs) e = mem-cons.1 (Or.inl (ground arith))
  get_elem?-mem (suc i) (x ∷ xs) e = mem-cons_of_mem x (get_elem?-mem i xs e)

  pub keep-Nodup : (p : A → Bool) (l : List A) → Nodup l → Nodup (keep p l)
  keep-Nodup p [] d = d
  keep-Nodup p (x ∷ l) d =
      let (fresh, d') = Nodup-cons.0 d in
      elim (Bool-cases (p x)) [
        | inl e ↦
            rw (e, if◌then◌else◌)
              (Nodup-cons.1 ((λ i. fresh (mem-keep p l i).0), keep-Nodup p l d'))
        | inr e ↦ rw (e, if◌then◌else◌) (keep-Nodup p l d')
      ]

  pub take-Nodup : (n : ℕ) (l : List A) → Nodup l → Nodup (take n l)
  take-Nodup n l d = Nodup.of_append_left (drop n l) (subst Nodup (sym (take-append-drop n l)) d)
