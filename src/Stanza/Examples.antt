-- ===== src/Stanza/Examples.antt =====
-- Small runs of the writer and the reader of fields, and the theorem at them.
use lastore_daemon.Base.{[], ◌∷◌, ◌++◌, none, some, ◌≡◌, refl}
use lastore_daemon.Stanza.{
  Text, Stanza, newline, encode_map, encode, decode, check_key, check_value,
}
use lastore_daemon.Stanza.RoundTrip.{drop_last, decode-encode_map}

-- "Ab" and "C-1", with a value of two lines and one of one.
abbrev two_fields : Stanza
two_fields = (65 ∷ 98 ∷ [], 120 ∷ 10 ∷ 121 ∷ []) ∷ (67 ∷ 45 ∷ 49 ∷ [], 58 ∷ 32 ∷ 122 ∷ []) ∷ []

written :
    encode_map two_fields
    ≡ some (
        65 ∷ 98 ∷ 58 ∷ 32 ∷ 120 ∷ 10 ∷ 32 ∷ 121 ∷ 10 ∷ 67 ∷ 45 ∷ 49 ∷ 58 ∷ 32 ∷ 58 ∷ 32 ∷ 122 ∷ 10
        ∷ [])
unfolding encode_map check_key check_value
written = refl

-- `Encode` puts a space more before the value, which `Decode` reads as part of it.
spaced : encode (75 ∷ []) (118 ∷ []) ≡ some (75 ∷ 58 ∷ 32 ∷ 32 ∷ 118 ∷ 10 ∷ [])
unfolding encode check_key check_value
spaced = refl

read_spaced : decode (75 ∷ 58 ∷ 32 ∷ 32 ∷ 118 ∷ 10 ∷ 10 ∷ []) ≡ some ((75 ∷ [], 32 ∷ 118 ∷ []) ∷ [])
unfolding decode
read_spaced = refl

-- A line without ": " is an error.
malformed : decode (65 ∷ 58 ∷ 10 ∷ []) ≡ none
unfolding decode
malformed = refl

decode-encode_map_example :
    (t : Text) × (encode_map two_fields ≡ some t)
    × (decode (t ++ (newline ∷ [])) ≡ some two_fields)
    × (decode t ≡ some (drop_last two_fields))
unfolding encode_map check_key check_value
decode-encode_map_example = decode-encode_map two_fields refl refl
