-- ===== src/Command/Variables.antt =====
-- Which variables a command's process sees (src/internal/system/command.go).
use Prim.Native.Char.{code}
use Prim.Native.String.{◌++◌ as text_append}
use text.Mathlib.TextLemmas.{cons-append, nil-append}
use lastore_daemon.Base.{
  Bool, true, false, not, ◌&&◌, List, [], ◌∷◌, map, Option, none, some, String, str_eq, str_eq_iff,
  ◌==◌, if◌then◌else◌, ◌≡◌, refl, arith, any, Option-cases, Bool-cases, inl, inr, ◌∙◌, ap, sym,
  subst,
}
use lastore_daemon.Base.Assoc.{
  Assoc, lookup, insert, distinct, lookup-insert, lookup-none, insert-distinct,
}
use lastore_daemon.Command.{Command}
use lastore_daemon.Command.Env.{
  allowed_child_env_keys, is_allowed, split_pair, put_pair, read_environ, override, env_text,
  set_env,
}

-- A text without `=`.
unfoldable no_eq : String → Bool
no_eq String.[] = true
no_eq (String.◌∷◌ c s) = not (code c == 61) && no_eq s

split_pair-env_text : (k v : String) → no_eq k ≡ true → split_pair (env_text (k, v)) ≡ some (k, v)
unfolding no_eq split_pair
split_pair-env_text String.[] v h =
    ap split_pair
      (nil-append (text_append "=" v) ∙ cons-append "=" "" v ∙ ap (String.◌∷◌ "=") (nil-append v))
split_pair-env_text (String.◌∷◌ c k) v h =
    ap split_pair (cons-append c k (text_append "=" v)) ∙ ground (arith, split_pair-env_text k v)

split_pair-no_eq : (e k v : String) → split_pair e ≡ some (k, v) → no_eq k ≡ true
unfolding no_eq split_pair
split_pair-no_eq String.[] k v h = absurd (ground arith)
split_pair-no_eq (String.◌∷◌ c s) k v h = elim (Bool-cases (code c == 61)) [
  | inl e ↦ subst (λ x. no_eq x ≡ true) {x = String.[]} {y = k} (ground arith) refl
  | inr e ↦ elim (Option-cases (split_pair s)) [
    | inl n ↦ absurd (ground arith)
    | inr ((k', v'), n) ↦
        subst (λ x. no_eq x ≡ true) {x = String.◌∷◌ c k'} {y = k} (ground arith)
          (ground (arith, split_pair-no_eq s k' v' n))
  ]
]

any-no_eq :
    (k : String) (l : List String)
    → any (λ x. not (no_eq x)) l ≡ false
    → any (str_eq k) l ≡ true
    → no_eq k ≡ true
any-no_eq k [] h e = absurd (ground arith)
any-no_eq k (x ∷ l) h e = ground (arith, str_eq_iff k x, any-no_eq k l)

is_allowed-no_eq : (k : String) → is_allowed k ≡ true → no_eq k ≡ true
unfolding is_allowed no_eq
is_allowed-no_eq k h = any-no_eq k allowed_child_env_keys refl h

-- The keys have no `=`.
unfoldable clean : Assoc String → Bool
clean [] = true
clean ((k, v) ∷ m) = no_eq k && clean m

insert-clean :
    (k v : String) (m : Assoc String)
    → no_eq k ≡ true
    → clean m ≡ true
    → clean (insert k v m) ≡ true
unfolding clean insert
insert-clean k v [] h e = ground arith
insert-clean k v ((j, w) ∷ m) h e = ground (arith, insert-clean k v m)

-- A map as a Go map with variable names for keys.
abbrev IsMap : Assoc String → Type 0
IsMap m = (distinct m ≡ true) × (clean m ≡ true)

empty-IsMap : IsMap []
unfolding distinct clean
empty-IsMap = (refl, refl)

insert-IsMap : (k v : String) (m : Assoc String) → no_eq k ≡ true → IsMap m → IsMap (insert k v m)
insert-IsMap k v m h (d, e) = (insert-distinct k v m d, insert-clean k v m h e)

read_environ-IsMap : (es : List String) (m : Assoc String) → IsMap m → IsMap (read_environ es m)
unfolding read_environ
read_environ-IsMap [] m i = i
read_environ-IsMap (e ∷ es) m i = elim (Option-cases (split_pair e)) [
  | inl n ↦ rw (n) (read_environ-IsMap es m i)
  | inr ((k, v), n) ↦
      rw (n)
        (read_environ-IsMap es (insert k v m) (insert-IsMap k v m (split_pair-no_eq e k v n) i))
]

override-IsMap : (l m : Assoc String) → IsMap m → IsMap (override l m)
unfolding override
override-IsMap [] m i = i
override-IsMap ((k, v) ∷ l) m i = elim (Bool-cases (is_allowed k)) [
  | inl e ↦
      rw (e, if◌then◌else◌)
        (insert-IsMap k v (override l m) (is_allowed-no_eq k e) (override-IsMap l m i))
  | inr e ↦ rw (e, if◌then◌else◌) (override-IsMap l m i)
]

abbrev pub or_else : Option String → Option String → Option String
or_else none b = b
or_else (some a) b = some a

or_else-none : (o : Option String) → or_else o none ≡ o
or_else-none none = refl
or_else-none (some a) = refl

-- One entry of the loop: `a` and `b` tell whether the key that is looked up and the entry's key are
-- allowed, and `e` whether they are the same.
override_step :
    (a b e : Bool) (v : String) (now vars before : Option String)
    → (e ≡ true → a ≡ b)
    → now ≡ (if a then or_else vars before else before)
    → (if b then (if e then some v else now) else now)
      ≡ (if a then or_else (if e then some v else vars) before else before)
override_step true true true v now vars before f h = refl
override_step true true false v now vars before f h = h
override_step true false true v now vars before f h = absurd (ground (arith, f refl))
override_step true false false v now vars before f h = h
override_step false true true v now vars before f h = absurd (ground (arith, f refl))
override_step false true false v now vars before f h = h
override_step false false e v now vars before f h = h

lookup-if :
    (b : Bool) (key : String) (m m' : Assoc String)
    → lookup key (if b then m else m') ≡ (if b then lookup key m else lookup key m')
lookup-if true key m m' = refl
lookup-if false key m m' = refl

lookup-override :
    (key : String) (l m : Assoc String)
    → lookup key (override l m)
      ≡ (if is_allowed key then or_else (lookup key l) (lookup key m) else lookup key m)
unfolding override lookup
lookup-override key [] m = elim (Bool-cases (is_allowed key)) [
  | inl e ↦ rw (e, if◌then◌else◌) refl
  | inr e ↦ rw (e, if◌then◌else◌) refl
]
lookup-override key ((k, v) ∷ l) m =
    lookup-if (is_allowed k) key (insert k v (override l m)) (override l m)
    ∙ ap (λ o. if is_allowed k then o else lookup key (override l m))
        (lookup-insert k key v (override l m))
    ∙ override_step (is_allowed key) (is_allowed k) (str_eq k key) v (lookup key (override l m))
        (lookup key l) (lookup key m) (λ e. ap is_allowed (sym ((str_eq_iff k key).0 e)))
        (lookup-override key l m)

lookup-read_environ :
    (key : String) (l m : Assoc String)
    → IsMap l
    → lookup key (read_environ (map env_text l) m) ≡ or_else (lookup key l) (lookup key m)
unfolding read_environ lookup distinct clean
lookup-read_environ key [] m i = refl
lookup-read_environ key ((k, v) ∷ l) m i =
    ap (λ o. lookup key (read_environ (map env_text l) (put_pair m o)))
      (split_pair-env_text k v (ground arith))
    ∙ lookup-read_environ key l (insert k v m) (ground arith, ground arith)
    ∙ ground (arith, lookup-insert k key v m, str_eq_iff k key, lookup-none k l)

-- The value of a variable in an environment.
abbrev pub variable : String → List String → Option String
variable key env = lookup key (read_environ env [])

-- When a command is given variables, then its process has an environment in which each of the
-- allowed keys has the given value, if one is given, and all else is as in the daemon's own
-- environment: no other variable can be set through the request.
pub set_env-variable :
    {F : Type 0} (environ : List String) (vars : Assoc String) (c : Command F) (key : String)
    → (env : List String) × ((set_env environ (some vars) c).env ≡ some env)
      × (variable key env ≡ (
          if is_allowed key
          then or_else (lookup key vars) (variable key environ)
          else variable key environ))
unfolding set_env lookup
set_env-variable environ vars c key =
    let own = read_environ environ [] in
    (
      map env_text (override vars own),
      refl,
      lookup-read_environ key (override vars own) []
            (override-IsMap vars own (read_environ-IsMap environ [] empty-IsMap))
          ∙ or_else-none _
          ∙ lookup-override key vars own,
    )
