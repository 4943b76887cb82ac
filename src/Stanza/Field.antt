-- ===== src/Stanza/Field.antt =====
-- One field of a record: `Decode` reads what `EncodeMap` writes of it
-- (src/lastore-update-tools/config/cache/package.go).
use mathlib.Core.List.{append_assoc, append-nil}
use lastore_daemon.Base.{
  ℕ, true, false, not, ◌&&◌, ◌||◌, List, [], ◌∷◌, ◌++◌, map, some, ◌==◌, leb, ◌≡◌, refl, sym, ap,
  ◌∙◌, arith, Bool-cases, inl, inr, if◌then◌else◌,
}
use lastore_daemon.Stanza.{
  Text, Stanza, newline, space, colon, all, check_key, split_lines, write_lines, scan_lines,
  split_field, flush, decode_lines,
}
use lastore_daemon.Stanza.Scan.{
  plain, and_left, and_right, all_cons, all-append, scan_line, key_plain, split_break, split_byte,
}

-- The lines of a value that follow its first.
abbrev pub indented : List Text → List Text
indented r = map (λ l. space ∷ l) r

abbrev pub grow : Text → List Text → Text
grow v [] = v
grow v (l ∷ r) = grow (v ++ (newline ∷ l)) r

newline_eq : (c : ℕ) → (c == newline) ≡ true → c ≡ newline
newline_eq c p = ground (arith, p)

pub grow-split : (a v : Text) → grow (a ++ (split_lines v).0) (split_lines v).1 ≡ a ++ v
grow-split a [] = refl
grow-split a (c ∷ t) = elim (Bool-cases (c == newline)) [
  | inl p ↦
      let e = newline_eq c p in
      rw (split_break c t p) (
        ap (λ k. grow k (split_lines t).1)
          (ap (λ k. k ++ (newline ∷ (split_lines t).0)) (append-nil a)
            ∙ sym (append_assoc a (newline ∷ []) (split_lines t).0))
        ∙ grow-split (a ++ (newline ∷ [])) t
        ∙ append_assoc a (newline ∷ []) t
        ∙ ap (λ d. a ++ (d ∷ t)) (sym e))
  | inr p ↦ rw (split_byte c t p) (
      ap (λ k. grow k (split_lines t).1) (sym (append_assoc a (c ∷ []) (split_lines t).0))
      ∙ grow-split (a ++ (c ∷ [])) t
      ∙ append_assoc a (c ∷ []) t)
]

pub scan_value :
    (p f : Text) (r : List Text) (t : Text)
    → all plain p ≡ true
    → all plain f ≡ true
    → all (all plain) r ≡ true
    → scan_lines [] (p ++ (write_lines f r ++ t)) ≡ (p ++ f) ∷ (indented r ++ scan_lines [] t)
unfolding write_lines
scan_value p f [] t hp hf hr =
    ap (λ k. scan_lines [] k)
      (ap (λ k. p ++ k) (append_assoc f (newline ∷ []) t) ∙ sym (append_assoc p f (newline ∷ t)))
    ∙ scan_line [] (p ++ f) t (all-append plain p f hp hf) (all-append plain p f hp hf)
scan_value p f (n ∷ r) t hp hf hr =
    let more = space ∷ (write_lines n r ++ t) in
    let h = all-append plain p f hp hf in
    ap (λ k. scan_lines [] k)
      (ap (λ k. p ++ k) (append_assoc f (newline ∷ space ∷ write_lines n r) t)
        ∙ sym (append_assoc p f (newline ∷ more)))
    ∙ scan_line [] (p ++ f) more h h
    ∙ ap (λ k. (p ++ f) ∷ k)
        (scan_value (space ∷ []) n r t refl (and_left (all plain n) (all (all plain) r) hr)
          (and_right (all plain n) (all (all plain) r) hr))

no_colon :
    (c : ℕ) (k : Text)
    → all (λ c. plain c && not (c == colon)) (c ∷ k) ≡ true
    → (c == colon) ≡ false
no_colon c k h = go c (all_cons (λ c. plain c && not (c == colon)) c k h).0
  where
    go : (c : ℕ) → plain c && not (c == colon) ≡ true → (c == colon) ≡ false
    go c h = ground (arith, h)

split_field-key :
    (k f : Text)
    → all (λ c. plain c && not (c == colon)) k ≡ true
    → split_field (k ++ (colon ∷ space ∷ f)) ≡ some (k, f)
unfolding split_field
split_field-key [] f h = refl
split_field-key (c ∷ []) f h = rw (no_colon c [] h, split_field) refl
split_field-key (c ∷ d ∷ k) f h =
    let rest =
      split_field-key (d ∷ k) f (all_cons (λ c. plain c && not (c == colon)) c (d ∷ k) h).1 in
    rw (no_colon c (d ∷ k) h, split_field, rest, if◌then◌else◌) refl

-- The lines that follow add to the value.
pub decode_indented :
    (kv : Stanza) (k v : Text) (r more : List Text)
    → decode_lines kv k v (indented r ++ more) ≡ decode_lines kv k (grow v r) more
unfolding decode_lines
decode_indented kv k v [] more = refl
decode_indented kv k v (l ∷ r) more = decode_indented kv k (v ++ (newline ∷ l)) r more

no_tab :
    (c : ℕ) (k : Text)
    → check_key (c ∷ k) ≡ true
    → not (c == space) ≡ true
    → (c == space || c == 9) ≡ false
unfolding check_key
no_tab c k h s = go c (and_left _ _ h) s
  where
    go :
        (c : ℕ)
        → ((leb 32 c && leb c 48)
            || (leb 48 c && leb c 57)
            || (leb 65 c && leb c 90)
            || (leb 97 c && leb c 122))
          ≡ true
        → not (c == space) ≡ true
        → (c == space || c == 9) ≡ false
    go c h s = ground (arith, h, s)

field_line :
    (kv : Stanza) (key value : Text) (c : ℕ) (l k f : Text) (more : List Text)
    → (c == space || c == 9) ≡ false
    → split_field (c ∷ l) ≡ some (k, f)
    → decode_lines kv key value ((c ∷ l) ∷ more) ≡ decode_lines (flush key value kv) k f more
unfolding decode_lines
field_line kv key value c l k f more p e = rw (p, decode_lines, e) refl

-- A line with a key stores the field before it.
pub decode_field :
    (kv : Stanza) (key value : Text) (c : ℕ) (k f : Text) (more : List Text)
    → check_key (c ∷ k) ≡ true
    → not (c == space) ≡ true
    → decode_lines kv key value ((c ∷ (k ++ (colon ∷ space ∷ f))) ∷ more)
      ≡ decode_lines (flush key value kv) (c ∷ k) f more
decode_field kv key value c k f more h s =
    let good = key_plain (c ∷ k) h in
    field_line kv key value c (k ++ (colon ∷ space ∷ f)) (c ∷ k) f more (no_tab c k h s)
      (split_field-key (c ∷ k) f good)
