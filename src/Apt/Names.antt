-- ===== src/Apt/Names.antt =====
-- The names of packages that are let through, and what the regular expression describes
-- (src/internal/system/apt/proxy.go).
use Prim.Native.Char.{Char, code}
use Prim.Native.String.{◌++◌ as text_append}
use text.Mathlib.TextLemmas.{cons-append, nil-append}
use text.Mathlib.TextEquality.{Char-path}
use lastore_daemon.Base.{
  Bool, true, false, ◌&&◌, Option, none, some, String, ◌==◌, ==_iff, if◌then◌else◌, ◌≡◌, refl,
  arith, Bool-cases, inl, inr, ◌∙◌, ap, sym, subst, ◌↔◌,
}
use lastore_daemon.Apt.{
  is_alnum, is_lower_digit, is_name_char, is_arch_char, is_version_char, skip, begins, is_empty,
  matches_version, matches_arch, is_pkg_name,
}

-- The parts of a specifier of a package.
pub record Specifier : Type 0 where
  pub first : Char
  pub rest : String
  pub arch : Option String
  pub version : Option String

unfoldable every : (Char → Bool) → String → Bool
every p String.[] = true
every p (String.◌∷◌ c s) = p c && every p s

abbrev part : (Char → Bool) → Option String → Bool
part p none = true
part p (some s) = begins p s && every p s

-- The characters of the parts are the allowed ones, and an architecture or a version has some.
unfoldable pub is_specifier : Specifier → Bool
unfolding every begins is_lower_digit is_name_char is_arch_char is_version_char
is_specifier s =
    is_lower_digit s.first
    && every is_name_char s.rest
    && part is_arch_char s.arch
    && part is_version_char s.version

abbrev version_text : Option String → String
version_text none = String.[]
version_text (some v) = String.◌∷◌ "=" v

abbrev arch_text : Option String → String → String
arch_text none t = t
arch_text (some a) t = String.◌∷◌ ":" (text_append a t)

unfoldable pub specifier_text : Specifier → String
specifier_text s =
    String.◌∷◌ s.first (text_append s.rest (arch_text s.arch (version_text s.version)))

-- The part of a text that `skip` leaves out.
unfoldable front : (Char → Bool) → String → String
front p String.[] = String.[]
front p (String.◌∷◌ c s) = let rest = front p s in if p c then String.◌∷◌ c rest else String.[]

front-every : (p : Char → Bool) (s : String) → every p (front p s) ≡ true
unfolding every front
front-every p String.[] = refl
front-every p (String.◌∷◌ c s) = elim (Bool-cases (p c)) [
  | inl e ↦ rw (e, if◌then◌else◌) (ground (arith, front-every p s))
  | inr e ↦ rw (e, if◌then◌else◌) refl
]

front-skip : (p : Char → Bool) (s : String) → text_append (front p s) (skip p s) ≡ s
unfolding skip front
front-skip p String.[] = nil-append String.[]
front-skip p (String.◌∷◌ c s) = elim (Bool-cases (p c)) [
  | inl e ↦
      rw (e, if◌then◌else◌)
        (cons-append c (front p s) (skip p s) ∙ ap (String.◌∷◌ c) (front-skip p s))
  | inr e ↦ rw (e, if◌then◌else◌) (nil-append (String.◌∷◌ c s))
]

front-begins : (p : Char → Bool) (s : String) → begins p s ≡ true → begins p (front p s) ≡ true
unfolding begins front
front-begins p String.[] h = h
front-begins p (String.◌∷◌ c s) h = rw (h, if◌then◌else◌) h

skip_rest : (p : Char → Bool) (t : String) → begins p t ≡ false → skip p t ≡ t
unfolding skip begins
skip_rest p String.[] h = refl
skip_rest p (String.◌∷◌ c t) h = rw (h, if◌then◌else◌) refl

skip-append :
    (p : Char → Bool) (s t : String)
    → every p s ≡ true
    → begins p t ≡ false
    → skip p (text_append s t) ≡ t
unfolding skip every
skip-append p String.[] t h b = ap (skip p) (nil-append t) ∙ skip_rest p t b
skip-append p (String.◌∷◌ c s) t h b =
    let first : p c ≡ true = ground arith in
    ap (skip p) (cons-append c s t)
    ∙ ap (λ b. if b then skip p (text_append s t) else String.◌∷◌ c (text_append s t)) first
    ∙ skip-append p s t (ground arith) b

skip_all : (p : Char → Bool) (s : String) → every p s ≡ true → skip p s ≡ String.[]
unfolding skip every
skip_all p String.[] h = refl
skip_all p (String.◌∷◌ c s) h = ground (arith, skip_all p s)

begins-append :
    (p : Char → Bool) (s t : String) → begins p s ≡ true → begins p (text_append s t) ≡ true
unfolding begins
begins-append p String.[] t h = absurd (ground arith)
begins-append p (String.◌∷◌ c s) t h = ap (begins p) (cons-append c s t) ∙ h

both : (a b : Bool) → a ≡ true → b ≡ true → (a && b) ≡ true
both a b h h' = ground arith

version-matches :
    (v : Option String) → part is_version_char v ≡ true → matches_version (version_text v) ≡ true
unfolding matches_version every is_empty
version-matches none h = refl
version-matches (some v) h =
    let all : every is_version_char v ≡ true = ground arith in
    let some_char : begins is_version_char v ≡ true = ground arith in
    both (begins is_version_char v) (is_empty (skip is_version_char v)) some_char
      (ap is_empty (skip_all is_version_char v all))

version_begins : (v : Option String) → begins is_arch_char (version_text v) ≡ false
unfolding begins is_arch_char is_alnum is_lower_digit
version_begins none = refl
version_begins (some v) = refl

arch-matches :
    (a v : Option String)
    → part is_arch_char a ≡ true
    → part is_version_char v ≡ true
    → matches_arch (arch_text a (version_text v)) ≡ true
unfolding matches_arch
arch-matches none none h h' = refl
arch-matches none (some v) h h' = version-matches (some v) h'
arch-matches (some a) v h h' =
    let all : every is_arch_char a ≡ true = ground arith in
    let some_char : begins is_arch_char a ≡ true = ground arith in
    both (begins is_arch_char (text_append a (version_text v)))
      (matches_version (skip is_arch_char (text_append a (version_text v))))
      (begins-append is_arch_char a (version_text v) some_char)
      (ap matches_version (skip-append is_arch_char a (version_text v) all (version_begins v))
        ∙ version-matches v h')

tail_begins : (a v : Option String) → begins is_name_char (arch_text a (version_text v)) ≡ false
unfolding begins is_name_char is_lower_digit
tail_begins none none = refl
tail_begins none (some v) = refl
tail_begins (some a) v = refl

is_specifier-is_pkg_name :
    (s : Specifier) → is_specifier s ≡ true → is_pkg_name (specifier_text s) ≡ true
unfolding is_specifier specifier_text is_pkg_name
is_specifier-is_pkg_name s h =
    let tail = arch_text s.arch (version_text s.version) in
    let first : is_lower_digit s.first ≡ true = ground arith in
    let rest : every is_name_char s.rest ≡ true = ground arith in
    let a : part is_arch_char s.arch ≡ true = ground arith in
    let v : part is_version_char s.version ≡ true = ground arith in
    both (is_lower_digit s.first) (matches_arch (skip is_name_char (text_append s.rest tail))) first
      (ap matches_arch (skip-append is_name_char s.rest tail rest (tail_begins s.arch s.version))
        ∙ arch-matches s.arch s.version a v)

empty_skip : (p : Char → Bool) (s : String) → is_empty (skip p s) ≡ true → every p s ≡ true
unfolding skip every is_empty
empty_skip p String.[] h = refl
empty_skip p (String.◌∷◌ c s) h = elim (Bool-cases (p c)) [
  | inl e ↦ both (p c) (every p s) e (empty_skip p s (ground arith))
  | inr e ↦ absurd (ground arith)
]

-- What the end of a text that matches is.
matched_version :
    (s : String)
    → matches_version s ≡ true
    → (v : Option String) × (part is_version_char v ≡ true) × (version_text v ≡ s)
unfolding matches_version every
matched_version String.[] h = (none, refl, refl)
matched_version (String.◌∷◌ c s) h =
    let empty : is_empty (skip is_version_char s) ≡ true = ground arith in
    let some_char : begins is_version_char s ≡ true = ground arith in
    let mark : (code c == 61) ≡ true = ground arith in
    (
      some s,
      both (begins is_version_char s) (every is_version_char s) some_char
          (empty_skip is_version_char s empty),
      ap (λ c. String.◌∷◌ c s) (Char-path "=" c (sym ((==_iff (code c) 61).0 mark))),
    )

matched_arch :
    (s : String)
    → matches_arch s ≡ true
    → (a : Option String) × (v : Option String) × (part is_arch_char a ≡ true)
      × (part is_version_char v ≡ true)
      × (arch_text a (version_text v) ≡ s)
unfolding matches_arch
matched_arch String.[] h = (none, none, refl, refl, refl)
matched_arch (String.◌∷◌ c s) h = elim (Bool-cases (code c == 58)) [
  | inr e ↦
      let (v, pv, t) = matched_version (String.◌∷◌ c s) (ground arith) in (none, v, refl, pv, t)
  | inl e ↦
      let some_char : begins is_arch_char s ≡ true = ground arith in
      let matched : matches_version (skip is_arch_char s) ≡ true = ground arith in
      let (v, pv, t) = matched_version (skip is_arch_char s) matched in
      (
        some (front is_arch_char s),
        v,
        both (begins is_arch_char (front is_arch_char s))
            (every is_arch_char (front is_arch_char s)) (front-begins is_arch_char s some_char)
            (front-every is_arch_char s),
        pv,
        ap (λ t. String.◌∷◌ ":" (text_append (front is_arch_char s) t)) t
            ∙ ap (String.◌∷◌ ":") (front-skip is_arch_char s)
            ∙ ap (λ c. String.◌∷◌ c s) (Char-path ":" c (sym ((==_iff (code c) 58).0 e))),
      )
]

specifier_of :
    (s : String)
    → is_pkg_name s ≡ true
    → (sp : Specifier) × (is_specifier sp ≡ true) × (specifier_text sp ≡ s)
unfolding is_specifier specifier_text is_pkg_name
specifier_of String.[] h = absurd (ground arith)
specifier_of (String.◌∷◌ c s) h =
    let first : is_lower_digit c ≡ true = ground arith in
    let matched : matches_arch (skip is_name_char s) ≡ true = ground arith in
    let (a, v, pa, pv, t) = matched_arch (skip is_name_char s) matched in
    let rest = front is_name_char s in
    (
      record { first = c; rest = rest; arch = a; version = v },
      both (is_lower_digit c && every is_name_char rest && part is_arch_char a)
          (part is_version_char v)
          (both (is_lower_digit c && every is_name_char rest) (part is_arch_char a)
            (both (is_lower_digit c) (every is_name_char rest) first (front-every is_name_char s))
            pa)
          pv,
      ap (λ t. String.◌∷◌ c (text_append rest t)) t ∙ ap (String.◌∷◌ c) (front-skip is_name_char s),
    )

-- A text is let through as the name of a package if and only if it is the text of a specifier: a
-- lower-case letter or digit and characters of a name, and then, each if it is there, a colon with
-- an architecture and an equals sign with a version, which have one allowed character at least.
pub is_pkg_name-is_specifier :
    (s : String)
    → (is_pkg_name s ≡ true)
      ↔ ((sp : Specifier) × (is_specifier sp ≡ true) × (specifier_text sp ≡ s))
is_pkg_name-is_specifier s = (
  specifier_of s,
  λ (sp, h, e). subst (λ t. is_pkg_name t ≡ true) e (is_specifier-is_pkg_name sp h),
)
