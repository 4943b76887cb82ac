-- ===== src/Mirrors/Sorting.antt =====
-- The plain version of `mergeSort` (src/lastore-smartmirror-daemon/quality.go): it rearranges its
-- list, and puts it in order by a total order.
use mathlib.Core.List.{
  Perm, Pairwise, Pairwise-cons, Mem, perm_append_comm, perm_middle, append-nil, mem-cons,
  mem-append, Pairwise-singleton,
}
use mathlib.Core.List.Perm
use mathlib.Core.Logic.Or
use lastore_daemon.Base.{
  ℕ, zero, suc, ◌≤◌, ◌/◌, Bool, true, false, List, [], ◌∷◌, ◌++◌, String, ◌≡◌, refl, arith, ltb,
  length, take, drop, Bool-cases, inl, inr, sym, subst, take-append-drop, length-take, length-drop,
}

-- The test of `mergeSort` for a list that is in order already.
abbrev pub short_or {ℓ} : {A : Type ℓ} → Bool → A → A → A
short_or true short sorted = short
short_or false short sorted = sorted

module _ (le : String → String → Bool) where
  abbrev pub interleave : List String → List String → List String
  interleave [] r = r
  interleave (x ∷ l) [] = x ∷ l
  interleave (x ∷ l) (y ∷ r) = elim (le x y) [
    | true ↦ x ∷ interleave l (y ∷ r)
    | false ↦ y ∷ interleave (x ∷ l) r
  ]

  pub interleave_left :
      (x y : String) (l r : List String)
      → le x y ≡ true
      → interleave (x ∷ l) (y ∷ r) ≡ x ∷ interleave l (y ∷ r)
  interleave_left x y l r p = rw (p, interleave) refl

  pub interleave_right :
      (x y : String) (l r : List String)
      → le x y ≡ false
      → interleave (x ∷ l) (y ∷ r) ≡ y ∷ interleave (x ∷ l) r
  interleave_right x y l r p = rw (p, interleave) refl

  interleave-perm : (l r : List String) → Perm (interleave l r) (l ++ r)
  interleave-perm [] r = Perm.refl r
  interleave-perm (x ∷ l) [] =
      subst (λ k. Perm (x ∷ l) k) (sym (append-nil (x ∷ l))) (Perm.refl (x ∷ l))
  interleave-perm (x ∷ l) (y ∷ r) = elim (Bool-cases (le x y)) [
    | inl p ↦
        subst (λ k. Perm k ((x ∷ l) ++ (y ∷ r))) (sym (interleave_left x y l r p))
          (Perm.cons x (interleave-perm l (y ∷ r)))
    | inr p ↦
        subst (λ k. Perm k ((x ∷ l) ++ (y ∷ r))) (sym (interleave_right x y l r p))
          (Perm.trans (Perm.cons y (interleave-perm (x ∷ l) r)) (Perm.symm (perm_middle (x ∷ l) r)))
  ]

  -- The plain sort, on the same halves.
  abbrev pub plain_sort : ℕ → List String → List String
  plain_sort zero l = l
  plain_sort (suc fuel) l = short_or (ltb (length l) 2) l (
      interleave (plain_sort fuel (take (length l / 2) l))
        (plain_sort fuel (drop (length l / 2) l)))

  abbrev pub IsOrdered : List String → Type 0
  IsOrdered l = Pairwise (λ a b. le a b ≡ true) l

  pub plain_sort-perm : (fuel : ℕ) (l : List String) → Perm (plain_sort fuel l) l
  plain_sort-perm zero l = Perm.refl l
  plain_sort-perm (suc fuel) l =
      let n = length l / 2 in
      let left = plain_sort fuel (take n l) in
      let right = plain_sort fuel (drop n l) in
      let halves : Perm (left ++ right) l =
        subst (λ k. Perm (left ++ right) k) (take-append-drop n l)
          (Perm.append (plain_sort-perm fuel (take n l)) (plain_sort-perm fuel (drop n l))) in
      either (ltb (length l) 2) (Perm.refl l) (Perm.trans (interleave-perm left right) halves)
    where
      either : (b : Bool) {a c d : List String} → Perm a d → Perm c d → Perm (short_or b a c) d
      either true p q = p
      either false p q = q

  module _ (total : (x y : String) → le x y ≡ false → le y x ≡ true)
      (trans : (x y z : String) → le x y ≡ true → le y z ≡ true → le x z ≡ true) where
    -- Everything in both lists is above something that is below the heads.
    below_all :
        (x y : String) (l r : List String)
        → ((a : String) → Mem a l → le x a ≡ true)
        → le x y ≡ true
        → ((a : String) → Mem a r → le y a ≡ true)
        → (a : String) → Mem a (l ++ (y ∷ r))
        → le x a ≡ true
    below_all x y l r below_l p below_r a m = Or.elim (hlevel) (mem-append.0 m) (below_l a) (λ k.
        Or.elim (hlevel) (mem-cons.0 k) (λ e. subst (λ z. le x z ≡ true) (sym e) p)
          (λ i. trans x y a p (below_r a i)))

    mem_interleave : (l r : List String) (a : String) → Mem a (interleave l r) → Mem a (l ++ r)
    mem_interleave l r a m = (Perm.mem_iff (interleave-perm l r)).0 m

    interleave-IsOrdered :
        (l r : List String) → IsOrdered l → IsOrdered r → IsOrdered (interleave l r)
    interleave-IsOrdered [] r sl sr = sr
    interleave-IsOrdered (x ∷ l) [] sl sr = sl
    interleave-IsOrdered (x ∷ l) (y ∷ r) sl sr =
        let (below_l, tail_l) = Pairwise-cons.0 sl in
        let (below_r, tail_r) = Pairwise-cons.0 sr in
        elim (Bool-cases (le x y)) [
          | inl p ↦ subst IsOrdered (sym (interleave_left x y l r p)) (
              Pairwise-cons.1 (
                (λ a m. below_all x y l r below_l p below_r a (mem_interleave l (y ∷ r) a m)),
                interleave-IsOrdered l (y ∷ r) tail_l sr,
              ))
          | inr p ↦ subst IsOrdered (sym (interleave_right x y l r p)) (
              Pairwise-cons.1 (
                (λ a m.
                    below_all y x r l below_r (total x y p) below_l a (
                      (Perm.mem_iff (perm_append_comm (x ∷ l) r)).0
                        (mem_interleave (x ∷ l) r a m))),
                interleave-IsOrdered (x ∷ l) r sl tail_r,
              ))
        ]

    short_or-IsOrdered :
        (l sorted : List String)
        → IsOrdered sorted
        → IsOrdered (short_or (ltb (length l) 2) l sorted)
    short_or-IsOrdered [] sorted s = Pairwise.nil
    short_or-IsOrdered (x ∷ []) sorted s = Pairwise-singleton (λ a b. le a b ≡ true) x
    short_or-IsOrdered (x ∷ y ∷ l) sorted s =
        subst (λ b. IsOrdered (short_or b (x ∷ y ∷ l) sorted)) (sym (long x y l)) s
      where
        long : (a b : String) (c : List String) → ltb (length (a ∷ b ∷ c)) 2 ≡ false
        long a b c = ground arith

    pub plain_sort-IsOrdered :
        (fuel : ℕ) (l : List String) → length l ≤ fuel → IsOrdered (plain_sort fuel l)
    plain_sort-IsOrdered zero [] e = Pairwise.nil
    plain_sort-IsOrdered zero (x ∷ l) e = absurd (omega arith)
    plain_sort-IsOrdered (suc fuel) [] e = short_or-IsOrdered [] _ Pairwise.nil
    plain_sort-IsOrdered (suc fuel) (x ∷ []) e = Pairwise-singleton (λ a b. le a b ≡ true) x
    plain_sort-IsOrdered (suc fuel) (x ∷ y ∷ k) e =
        let l = x ∷ y ∷ k in
        let n = length l / 2 in
        short_or-IsOrdered l _ (
          interleave-IsOrdered (plain_sort fuel (take n l)) (plain_sort fuel (drop n l))
            (plain_sort-IsOrdered fuel (take n l) (omega (arith, length-take n l)))
            (plain_sort-IsOrdered fuel (drop n l) (omega (arith, length-drop n l))))
