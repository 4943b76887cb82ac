-- ===== src/Stanza/Scan.antt =====
-- The lines that the scanner gives of what `EncodeMap` (src/lastore-update-tools/config/cache/package.go)
-- writes.
use mathlib.Core.List.{append_assoc, append-nil}
use lastore_daemon.Base.{
  ℕ, Bool, true, false, not, ◌&&◌, List, [], ◌∷◌, ◌++◌, ◌==◌, ◌≡◌, refl, sym, ap, ◌∙◌, arith,
  Bool-cases, inl, inr, subst, ltb, leb, ◌||◌,
}
use lastore_daemon.Stanza.{
  Text, newline, colon, all, check_key, check_value, split_lines, strip, scan_lines,
}

-- A byte that neither ends a line nor is dropped at its end.
abbrev pub plain : ℕ → Bool
plain c = not (c == 10) && not (c == 13)

pub and_left : (a b : Bool) → a && b ≡ true → a ≡ true
and_left true b h = refl
and_left false b h = h

pub and_right : (a b : Bool) → a && b ≡ true → b ≡ true
and_right true b h = h
and_right false b h = absurd (ground (arith, h))

pub all_cons :
    (p : ℕ → Bool) (c : ℕ) (t : Text) → all p (c ∷ t) ≡ true → (p c ≡ true) × (all p t ≡ true)
all_cons p c t h = (and_left (p c) (all p t) h, and_right (p c) (all p t) h)

pub cons_all :
    (p : ℕ → Bool) (c : ℕ) (t : Text) → p c ≡ true → all p t ≡ true → all p (c ∷ t) ≡ true
cons_all p c t h k = ground (arith, h, k)

pub all-append :
    (p : ℕ → Bool) (s t : Text) → all p s ≡ true → all p t ≡ true → all p (s ++ t) ≡ true
all-append p [] t h k = k
all-append p (c ∷ s) t h k =
    let (hc, hs) = all_cons p c s h in cons_all p c (s ++ t) hc (all-append p s t hs k)

strip-plain : (l : Text) → all plain l ≡ true → strip l ≡ l
strip-plain [] h = refl
strip-plain (c ∷ []) h = ground (arith, h)
strip-plain (c ∷ d ∷ t) h = ap (λ k. c ∷ k) (strip-plain (d ∷ t) (all_cons plain c (d ∷ t) h).1)

plain_byte : (c : ℕ) → plain c ≡ true → (c == newline) ≡ false
plain_byte c h = ground (arith, h)

scan_byte :
    (acc : Text) (c : ℕ) (t : Text)
    → (c == newline) ≡ false
    → scan_lines acc (c ∷ t) ≡ scan_lines (acc ++ (c ∷ [])) t
unfolding scan_lines
scan_byte acc c t p = rw (p, scan_lines) refl

scan_end : (acc t : Text) → scan_lines acc (newline ∷ t) ≡ strip acc ∷ scan_lines [] t
unfolding scan_lines
scan_end [] t = refl
scan_end (c ∷ acc) t = refl

-- A line that is written in full is the next line that is read.
pub scan_line :
    (acc l t : Text)
    → all plain (acc ++ l) ≡ true
    → all plain l ≡ true
    → scan_lines acc (l ++ (newline ∷ t)) ≡ (acc ++ l) ∷ scan_lines [] t
scan_line acc [] t h k =
    scan_end acc t
    ∙ ap (λ a. a ∷ scan_lines [] t)
        (strip-plain acc (subst (λ a. all plain a ≡ true) (append-nil acc) h)
          ∙ sym (append-nil acc))
scan_line acc (c ∷ l) t h k =
    let (plain_c, plain_l) = all_cons plain c l k in
    let e = append_assoc acc (c ∷ []) l in
    scan_byte acc c (l ++ (newline ∷ t)) (plain_byte c plain_c)
    ∙ scan_line (acc ++ (c ∷ [])) l t (subst (λ a. all plain a ≡ true) (sym e) h) plain_l
    ∙ ap (λ a. a ∷ scan_lines [] t) e

value_byte :
    (c : ℕ)
    → (ltb 127 c || (ltb 31 c && ltb c 127) || c == 10 || c == 9) ≡ true
    → (c == newline) ≡ false
    → plain c ≡ true
value_byte c h p = ground (arith, h, p)

pub split_break :
    (c : ℕ) (t : Text)
    → (c == newline) ≡ true
    → split_lines (c ∷ t) ≡ ([], (split_lines t).0 ∷ (split_lines t).1)
split_break c t p = rw (p, split_lines) refl

pub split_byte :
    (c : ℕ) (t : Text)
    → (c == newline) ≡ false
    → split_lines (c ∷ t) ≡ (c ∷ (split_lines t).0, (split_lines t).1)
split_byte c t p = rw (p, split_lines) refl

cons_lines :
    (l : Text) (r : List Text)
    → all plain l ≡ true
    → all (all plain) r ≡ true
    → all (all plain) (l ∷ r) ≡ true
cons_lines l r h k = ground (arith, h, k)

-- Every line of a value is plain.
pub lines_plain :
    (v : Text)
    → check_value v ≡ true
    → (all plain (split_lines v).0 ≡ true) × (all (all plain) (split_lines v).1 ≡ true)
unfolding check_value
lines_plain [] h = (refl, refl)
lines_plain (c ∷ t) h =
    let (hc, ht) =
      all_cons (λ c. ltb 127 c || (ltb 31 c && ltb c 127) || c == 10 || c == 9) c t h in
    let (plain_first, plain_rest) = lines_plain t ht in
    elim (Bool-cases (c == newline)) [
      | inl p ↦
          rw (split_break c t p)
            (refl, cons_lines (split_lines t).0 (split_lines t).1 plain_first plain_rest)
      | inr p ↦
          rw (split_byte c t p)
            (cons_all plain c (split_lines t).0 (value_byte c hc p) plain_first, plain_rest)
    ]

key_byte :
    (c : ℕ)
    → ((leb 32 c && leb c 48)
        || (leb 48 c && leb c 57)
        || (leb 65 c && leb c 90)
        || (leb 97 c && leb c 122))
      ≡ true
    → plain c && not (c == colon) ≡ true
key_byte c h = ground (arith, h)

-- A key is plain, and has no colon.
pub key_plain : (k : Text) → check_key k ≡ true → all (λ c. plain c && not (c == colon)) k ≡ true
unfolding check_key
key_plain [] h = refl
key_plain (c ∷ k) h =
    let (hc, hk) =
      all_cons
        (λ c.
          (leb 32 c && leb c 48)
          || (leb 48 c && leb c 57)
          || (leb 65 c && leb c 90)
          || (leb 97 c && leb c 122))
        c k h in
    cons_all _ c k (key_byte c hc) (key_plain k hk)
