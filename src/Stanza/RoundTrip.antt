-- ===== src/Stanza/RoundTrip.antt =====
-- `Decode` reads what `EncodeMap` writes (src/lastore-update-tools/config/cache/package.go).
use mathlib.Core.List.{append_assoc, append-nil}
use lastore_daemon.Base.{
  true, List, [], ◌∷◌, ◌++◌, some, ◌≡◌, refl, sym, ap, ◌∙◌, subst, if◌then◌else◌,
}
use lastore_daemon.Stanza.{
  Text, Stanza, newline, write_field, write_fields, is_valid, encode_map, scan_lines, flush,
  decode_lines, decode,
}
use lastore_daemon.Stanza.Lines.{
  is_readable, Good-field, flush-new, field_lines, scan_field, decode_one,
}

-- The map, key and value of the loop after some fields.
abbrev after : Stanza → Text → Text → Stanza → Stanza × Text × Text
after kv key value [] = (kv, key, value)
after kv key value ((k, v) ∷ fields) = after (flush key value kv) k v fields

abbrev all_lines : Stanza → List Text
all_lines [] = []
all_lines ((k, v) ∷ kv) = field_lines k v ++ all_lines kv

scan_fields :
    (seen kv : Stanza) (t : Text)
    → is_valid kv ≡ true
    → is_readable seen kv ≡ true
    → scan_lines [] (write_fields kv ++ t) ≡ all_lines kv ++ scan_lines [] t
unfolding write_fields
scan_fields seen [] t h r = refl
scan_fields seen ((k, v) ∷ kv) t h r =
    let (g, _, h', r') = Good-field seen kv k v h r in
    ap (λ l. scan_lines [] l) (append_assoc (write_field k v) (write_fields kv) t)
    ∙ scan_field k v (write_fields kv ++ t) g
    ∙ ap (λ l. field_lines k v ++ l) (scan_fields (seen ++ ((k, v) ∷ [])) kv t h' r')
    ∙ sym (append_assoc (field_lines k v) (all_lines kv) (scan_lines [] t))

-- From the state in which a field is being read, with those before it stored.
decode_fields :
    (seen kv : Stanza) (key value : Text) (more : List Text)
    → is_valid kv ≡ true
    → is_readable (flush key value seen) kv ≡ true
    → decode_lines seen key value (all_lines kv ++ more)
      ≡ (let (s, k, v) = after seen key value kv in decode_lines s k v more)
decode_fields seen [] key value more h r = refl
decode_fields seen ((k, v) ∷ kv) key value more h r =
    let now = flush key value seen in
    let (g, fresh, h', r') = Good-field now kv k v h r in
    ap (λ l. decode_lines seen key value l) (append_assoc (field_lines k v) (all_lines kv) more)
    ∙ decode_one seen key value k v (all_lines kv ++ more) g
    ∙ decode_fields now kv k v more h'
        (subst (λ s. is_readable s kv ≡ true) (sym (flush-new k v now g.start fresh)) r')

-- The last field is the one that is being read.
after-flush :
    (seen kv : Stanza) (key value : Text)
    → is_valid kv ≡ true
    → is_readable (flush key value seen) kv ≡ true
    → (let (s, k, v) = after seen key value kv in flush k v s) ≡ flush key value seen ++ kv
after-flush seen [] key value h r = sym (append-nil (flush key value seen))
after-flush seen ((k, v) ∷ kv) key value h r =
    let now = flush key value seen in
    let (g, fresh, h', r') = Good-field now kv k v h r in
    let e = flush-new k v now g.start fresh in
    after-flush now kv k v h' (subst (λ s. is_readable s kv ≡ true) (sym e) r')
    ∙ ap (λ s. s ++ kv) e
    ∙ append_assoc now ((k, v) ∷ []) kv

abbrev pub drop_last : Stanza → Stanza
drop_last [] = []
drop_last (f ∷ []) = []
drop_last (f ∷ g ∷ kv) = f ∷ drop_last (g ∷ kv)

drop_last-append : (kv : Stanza) (f : Text × Text) → drop_last (kv ++ (f ∷ [])) ≡ kv
drop_last-append [] f = refl
drop_last-append (g ∷ []) f = refl
drop_last-append (g ∷ h ∷ kv) f = ap (λ l. g ∷ l) (drop_last-append (h ∷ kv) f)

-- What is stored when the lines end: all but the field that is being read.
after-stored :
    (seen kv : Stanza) (key value : Text)
    → is_valid kv ≡ true
    → flush key value seen ≡ seen ++ ((key, value) ∷ [])
    → is_readable (seen ++ ((key, value) ∷ [])) kv ≡ true
    → (after seen key value kv).0 ≡ drop_last ((seen ++ ((key, value) ∷ [])) ++ kv)
after-stored seen [] key value h e r =
    sym (drop_last-append seen (key, value))
    ∙ ap drop_last (sym (append-nil (seen ++ ((key, value) ∷ []))))
after-stored seen ((k, v) ∷ kv) key value h e r =
    let now = seen ++ ((key, value) ∷ []) in
    let (g, fresh, h', r') = Good-field now kv k v h r in
    ap (λ s. (after s k v kv).0) e
    ∙ after-stored now kv k v h' (flush-new k v now g.start fresh) r'
    ∙ ap drop_last (append_assoc now ((k, v) ∷ []) kv)

decode_written :
    (kv : Stanza) (t : Text)
    → is_valid kv ≡ true
    → is_readable [] kv ≡ true
    → decode (write_fields kv ++ t)
      ≡ (let (s, k, v) = after [] [] [] kv in decode_lines s k v (scan_lines [] t))
unfolding decode
decode_written kv t h r =
    ap (λ l. decode_lines [] [] [] l) (scan_fields [] kv t h r)
    ∙ decode_fields [] kv [] [] (scan_lines [] t) h r

at_blank : (s : Stanza) (k v : Text) → decode_lines s k v ([] ∷ []) ≡ some (flush k v s)
unfolding decode_lines
at_blank s k v = go (flush k v s)
  where
    go : (kv : Stanza) → elim kv [ [] ↦ some [] | f ∷ fs ↦ some (f ∷ fs) ] ≡ some kv
    go [] = refl
    go (f ∷ fs) = refl

stored_lem :
    (kv : Stanza)
    → is_valid kv ≡ true
    → is_readable [] kv ≡ true
    → (after [] [] [] kv).0 ≡ drop_last kv
stored_lem [] h r = refl
stored_lem ((k, v) ∷ kv) h r =
    let (g, fresh, h', r') = Good-field [] kv k v h r in
    after-stored [] kv k v h' (flush-new k v [] g.start fresh) r'

-- `EncodeMap` writes any fields with valid keys and values, when the keys differ, are not empty and do
-- not start with a space and the values are not empty. `Decode` reads the fields back from the text
-- with a blank line after it, and from the text alone it reads all of them but the last.
pub decode-encode_map :
    (kv : Stanza)
    → is_valid kv ≡ true
    → is_readable [] kv ≡ true
    → (t : Text) × (encode_map kv ≡ some t)
      × (decode (t ++ (newline ∷ [])) ≡ some kv)
      × (decode t ≡ some (drop_last kv))
unfolding encode_map scan_lines decode_lines
decode-encode_map kv h r =
    let t = write_fields kv in
    let (s, k, v) = after [] [] [] kv in
    (
      t,
      rw (h, if◌then◌else◌) refl,
      decode_written kv (newline ∷ []) h r ∙ at_blank s k v ∙ ap some (after-flush [] kv [] [] h r),
      ap decode (sym (append-nil t)) ∙ decode_written kv [] h r ∙ ap some (stored_lem kv h r),
    )
