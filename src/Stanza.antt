-- ===== src/Stanza.antt =====
-- The fields of a package record as text (src/lastore-update-tools/config/cache/package.go): what
-- `EncodeMap` and `Encode` write, and what `Decode` reads. A text is its bytes.
pub mod Scan
pub mod Field
pub mod Lines
pub mod RoundTrip
pub mod Examples
use lastore_daemon.Base.{
  ℕ, zero, suc, Bool, true, false, not, ◌&&◌, ◌||◌, List, [], ◌∷◌, ◌++◌, Option, none, some, ltb,
  leb, ◌==◌, if◌then◌else◌,
}

abbrev pub Text : Type 0
Text = List ℕ

abbrev pub newline : ℕ
newline = 10

abbrev pub space : ℕ
space = 32

abbrev pub colon : ℕ
colon = 58

abbrev pub all {ℓ} : {A : Type ℓ} → (A → Bool) → List A → Bool
all p [] = true
all p (x ∷ xs) = p x && all p xs

abbrev pub text_eq : Text → Text → Bool
text_eq [] [] = true
text_eq [] (d ∷ y) = false
text_eq (c ∷ x) [] = false
text_eq (c ∷ x) (d ∷ y) = c == d && text_eq x y

-- `checkKey`: the range from the space to 0, and letters and digits.
unfoldable pub check_key : Text → Bool
check_key = all (λ c.
    (leb 32 c && leb c 48)
    || (leb 48 c && leb c 57)
    || (leb 65 c && leb c 90)
    || (leb 97 c && leb c 122))

-- `checkValue`
unfoldable pub check_value : Text → Bool
check_value = all (λ c. ltb 127 c || (ltb 31 c && ltb c 127) || c == 10 || c == 9)

-- `strings.Split(v, "\n")`: the first line and the others.
abbrev pub split_lines : Text → Text × List Text
split_lines [] = ([], [])
split_lines (c ∷ t) =
    let (first, rest) = split_lines t in
    elim (c == newline) [ true ↦ ([], first ∷ rest) | false ↦ (c ∷ first, rest) ]

-- The loop that writes the lines of a value.
unfoldable pub write_lines : Text → List Text → Text
write_lines last [] = last ++ (newline ∷ [])
write_lines line (next ∷ rest) = line ++ (newline ∷ space ∷ write_lines next rest)

abbrev pub Stanza : Type 0
Stanza = List (Text × Text)

-- What `EncodeMap` writes of one field.
unfoldable pub write_field : Text → Text → Text
unfolding write_lines
write_field k [] = []
write_field k (c ∷ v) =
    let (first, rest) = split_lines (c ∷ v) in k ++ (colon ∷ space ∷ write_lines first rest)

unfoldable pub write_fields : Stanza → Text
unfolding write_field
write_fields [] = []
write_fields ((k, v) ∷ kv) = write_field k v ++ write_fields kv

abbrev pub is_valid : Stanza → Bool
is_valid [] = true
is_valid ((k, v) ∷ kv) = check_key k && check_value v && is_valid kv

-- `EncodeMap`, with the fields in the order in which Go ranges over the map; none is an error.
unfoldable pub encode_map : Stanza → Option Text
unfolding write_fields
encode_map kv = if is_valid kv then some (write_fields kv) else none

-- The loop of `Encode`, which puts a space before the first line too.
unfoldable pub write_spaced : Text → List Text → Text
write_spaced last [] = space ∷ last ++ (newline ∷ [])
write_spaced line (next ∷ rest) = space ∷ line ++ (newline ∷ write_spaced next rest)

-- `Encode`
unfoldable pub encode : Text → Text → Option Text
unfolding write_spaced
encode k v =
    let (first, rest) = split_lines v in
    if check_key k && check_value v
    then some (k ++ (colon ∷ space ∷ write_spaced first rest))
    else none

-- `bufio.ScanLines` drops one carriage return at the end of a line.
abbrev pub strip : Text → Text
strip [] = []
strip (c ∷ []) = if c == 13 then [] else c ∷ []
strip (c ∷ d ∷ t) = c ∷ strip (d ∷ t)

-- The lines of a `bufio.Scanner`, with the start of the line that is being read.
unfoldable pub scan_lines : Text → Text → List Text
scan_lines [] [] = []
scan_lines (c ∷ line) [] = strip (c ∷ line) ∷ []
scan_lines line (c ∷ t) = elim (c == newline) [
  | true ↦ strip line ∷ scan_lines [] t
  | false ↦ scan_lines (line ++ (c ∷ [])) t
]

-- `strings.SplitN(line, ": ", 2)`; none without the separator.
unfoldable pub split_field : Text → Option (Text × Text)
split_field [] = none
split_field (c ∷ []) = none
split_field (c ∷ d ∷ t) =
    let rest = split_field (d ∷ t) in
    if c == colon && d == space
    then some ([], t)
    else elim rest [ none ↦ none | some (k, v) ↦ some (c ∷ k, v) ]

-- A write to a Go map.
abbrev pub put : Text → Text → Stanza → Stanza
put k v [] = (k, v) ∷ []
put k v ((k', v') ∷ kv) = if text_eq k k' then (k, v) ∷ kv else (k', v') ∷ put k v kv

-- The write of the field that is being read; an empty key is none.
abbrev pub flush : Text → Text → Stanza → Stanza
flush [] v kv = kv
flush (c ∷ k) v kv = put (c ∷ k) v kv

-- The loop of `Decode`; none is an error.
unfoldable pub decode_lines : Stanza → Text → Text → List Text → Option Stanza
unfolding split_field
decode_lines result key value [] = some result
decode_lines result key value ([] ∷ lines) =
    let kv = flush key value result in
    elim kv [ [] ↦ decode_lines [] key value lines | f ∷ fs ↦ some (f ∷ fs) ]
decode_lines result key value ((c ∷ line) ∷ lines) = elim (c == space || c == 9) [
  | true ↦ decode_lines result key (value ++ (newline ∷ line)) lines
  | false ↦ elim (split_field (c ∷ line)) [
    | none ↦ none
    | some (k, v) ↦ decode_lines (flush key value result) k v lines
  ]
]

-- `Decode`
unfoldable pub decode : Text → Option Stanza
unfolding scan_lines decode_lines
decode t = decode_lines [] [] [] (scan_lines [] t)
