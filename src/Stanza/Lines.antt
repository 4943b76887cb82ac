-- ===== src/Stanza/Lines.antt =====
-- The lines of a field that `Decode` can read back (src/lastore-update-tools/config/cache/package.go).
use mathlib.Core.List.{append_assoc}
use lastore_daemon.Base.{
  Bool, true, false, not, ◌&&◌, List, [], ◌∷◌, ◌++◌, ◌==◌, ◌≡◌, refl, sym, ap, ◌∙◌, arith,
  if◌then◌else◌,
}
use lastore_daemon.Stanza.{
  Text, Stanza, space, colon, all, check_key, check_value, text_eq, split_lines, write_lines,
  write_field, is_valid, scan_lines, put, flush, decode_lines,
}
use lastore_daemon.Stanza.Scan.{
  plain, and_left, and_right, all-append, all_cons, cons_all, lines_plain, key_plain,
}
use lastore_daemon.Stanza.Field.{indented, grow-split, scan_value, decode_indented, decode_field}

abbrev pub is_new : Text → Stanza → Bool
is_new k [] = true
is_new k ((k', v) ∷ kv) = not (text_eq k k') && is_new k kv

abbrev pub starts : Text → Bool
starts [] = false
starts (c ∷ k) = not (c == space)

abbrev pub has_text : Text → Bool
has_text [] = false
has_text (c ∷ v) = true

-- Keys that differ from those before, are not empty and do not start with a space, and values that
-- are not empty.
abbrev pub is_readable : Stanza → Stanza → Bool
is_readable seen [] = true
is_readable seen ((k, v) ∷ kv) =
    (starts k && has_text v) && (is_new k seen && is_readable (seen ++ ((k, v) ∷ [])) kv)

-- Of a valid field that can be read.
pub record Good (k v : Text) : Type 0 where
  pub key : check_key k ≡ true
  pub value : check_value v ≡ true
  pub start : starts k ≡ true
  pub text : has_text v ≡ true

pub Good-field :
    (seen kv : Stanza) (k v : Text)
    → is_valid ((k, v) ∷ kv) ≡ true
    → is_readable seen ((k, v) ∷ kv) ≡ true
    → Good k v
      × (is_new k seen ≡ true)
      × (is_valid kv ≡ true)
      × (is_readable (seen ++ ((k, v) ∷ [])) kv ≡ true)
Good-field seen kv k v h r =
    let h1 = and_left (check_key k && check_value v) (is_valid kv) h in
    let new = is_new k seen in
    let rest = is_readable (seen ++ ((k, v) ∷ [])) kv in
    let r1 = and_left (starts k && has_text v) (new && rest) r in
    let r2 = and_right (starts k && has_text v) (new && rest) r in
    (
      record {
        key = and_left (check_key k) (check_value v) h1;
        value = and_right (check_key k) (check_value v) h1;
        start = and_left (starts k) _ r1;
        text = and_right (starts k) _ r1;
      },
      and_left (is_new k seen) _ r2,
      and_right (check_key k && check_value v) (is_valid kv) h,
      and_right (is_new k seen) _ r2,
    )

not-true : (b : Bool) → not b ≡ true → b ≡ false
not-true true h = absurd (ground (arith, h))
not-true false h = refl

put-new : (k v : Text) (kv : Stanza) → is_new k kv ≡ true → put k v kv ≡ kv ++ ((k, v) ∷ [])
put-new k v [] h = refl
put-new k v ((k', v') ∷ kv) h =
    let e = not-true (text_eq k k') (and_left (not (text_eq k k')) (is_new k kv) h) in
    rw (e, if◌then◌else◌)
      (ap (λ r. (k', v') ∷ r) (put-new k v kv (and_right (not (text_eq k k')) (is_new k kv) h)))

pub flush-new :
    (k v : Text) (kv : Stanza)
    → starts k ≡ true
    → is_new k kv ≡ true
    → flush k v kv ≡ kv ++ ((k, v) ∷ [])
flush-new [] v kv s h = absurd (ground (arith, s))
flush-new (c ∷ k) v kv s h = put-new (c ∷ k) v kv h

-- The lines of a field.
abbrev pub field_lines : Text → Text → List Text
field_lines k v = (k ++ (colon ∷ space ∷ (split_lines v).0)) ∷ indented (split_lines v).1

plain_key : (k : Text) → check_key k ≡ true → all plain k ≡ true
plain_key k h = go k (key_plain k h)
  where
    go : (k : Text) → all (λ c. plain c && not (c == colon)) k ≡ true → all plain k ≡ true
    go [] h = refl
    go (c ∷ k) h =
        let (hc, hk) = all_cons (λ c. plain c && not (c == colon)) c k h in
        cons_all plain c k (and_left (plain c) _ hc) (go k hk)

scan_parts :
    (k f : Text) (r : List Text) (t : Text)
    → all plain k ≡ true
    → all plain f ≡ true
    → all (all plain) r ≡ true
    → scan_lines [] ((k ++ (colon ∷ space ∷ write_lines f r)) ++ t)
      ≡ (k ++ (colon ∷ space ∷ f)) ∷ (indented r ++ scan_lines [] t)
scan_parts k f r t hk hf hr =
    let key = k ++ (colon ∷ space ∷ []) in
    ap (λ l. scan_lines [] l)
      (append_assoc k (colon ∷ space ∷ write_lines f r) t
        ∙ sym (append_assoc k (colon ∷ space ∷ []) (write_lines f r ++ t)))
    ∙ scan_value key f r t (all-append plain k (colon ∷ space ∷ []) hk refl) hf hr
    ∙ ap (λ l. l ∷ (indented r ++ scan_lines [] t)) (append_assoc k (colon ∷ space ∷ []) f)

pub scan_field :
    (k v t : Text)
    → Good k v
    → scan_lines [] (write_field k v ++ t) ≡ field_lines k v ++ scan_lines [] t
unfolding write_field
scan_field k [] t g = absurd (ground (arith, g.text))
scan_field k (c ∷ v) t g =
    let (f, r) = lines_plain (c ∷ v) g.value in
    scan_parts k (split_lines (c ∷ v)).0 (split_lines (c ∷ v)).1 t (plain_key k g.key) f r

pub decode_one :
    (kv : Stanza) (key value k v : Text) (more : List Text)
    → Good k v
    → decode_lines kv key value (field_lines k v ++ more)
      ≡ decode_lines (flush key value kv) k v more
decode_one kv key value [] v more g = absurd (ground (arith, g.start))
decode_one kv key value (c ∷ k) v more g =
    let (first, rest) = split_lines v in
    decode_field kv key value c k first (indented rest ++ more) g.key g.start
    ∙ decode_indented (flush key value kv) (c ∷ k) first rest more
    ∙ ap (λ x. decode_lines (flush key value kv) (c ∷ k) x more) (grow-split [] v)
