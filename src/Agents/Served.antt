-- ===== src/Agents/Served.antt =====
-- No run of the daemon's handlers on the agents' map panics, and all keep it valid
-- (src/lastore-daemon/agent.go, manager_ifc.go, manager.go).
use lastore_daemon.Base.{
  Bool, true, false, Option, some, String, str_eq, if◌then◌else◌, ◌≡◌, refl, arith, Option-cases,
  Bool-cases, inl, inr, str_eq_self, subst,
}
use lastore_daemon.Base.Assoc.{lookup, insert, lookup-insert}
use lastore_daemon.Agents.{
  Session, Item, AgentMap, or_empty, new_item, with_item, set_active_uid, add_user, has_user,
  put_session, add_session, add_lang,
}
use lastore_daemon.Agents.Valid.{
  IsValid, nil_invalid, with_item-IsValid, session_valid, new_item_valid, found_valid,
  add_lang-IsValid,
}
use lastore_daemon.Agents.Handlers.{Login, watch_session, watch_new, handle_session_new}

-- A valid map, which has every user that another has.
abbrev pub Extends : AgentMap → AgentMap → Type 0
Extends m m' = IsValid m' × ((u : String) → has_user u m ≡ true → has_user u m' ≡ true)

pub Extends-trans : (a b c : AgentMap) → Extends a b → Extends b c → Extends a c
Extends-trans a b c (v, f) (w, g) = (w, λ u h. g u (f u h))

-- A run that ends in a map that extends the one it starts from.
abbrev pub Runs : AgentMap → Option AgentMap → Type 0
Runs m o = (m' : AgentMap) × (o ≡ some m') × Extends m m'

pub stay-Runs : (m : AgentMap) → IsValid m → Runs m (some m)
stay-Runs m v = (m, refl, (v, λ u h. h))

pub with_item-Extends :
    (uid : String) (item : Item) (m : AgentMap)
    → IsValid (with_item uid item m)
    → Extends m (with_item uid item m)
unfolding has_user
with_item-Extends uid item m v = (v, λ u h. ground (arith, lookup-insert uid u item m.items))

pub found :
    (uid : String) (m : AgentMap)
    → has_user uid m ≡ true
    → (item : Item) × (lookup uid m.items ≡ some item)
unfolding has_user
found uid m h = elim (Option-cases (lookup uid m.items)) [
  | inl e ↦ absurd (ground arith)
  | inr p ↦ p
]

add_lang_found :
    (uid lang : String) (m : AgentMap) (item : Item)
    → lookup uid m.items ≡ some item
    → add_lang uid lang m ≡ with_item uid (record item { lang = lang }) m
unfolding add_lang
add_lang_found uid lang m item e = rw (e, add_lang) refl

pub add_lang-Extends :
    (uid lang : String) (m : AgentMap) (item : Item)
    → lookup uid m.items ≡ some item
    → IsValid m
    → Extends m (add_lang uid lang m)
unfolding add_lang
add_lang-Extends uid lang m item e v =
    rw (e, add_lang)
      (with_item-Extends uid (record item { lang = lang }) m
        (subst IsValid (add_lang_found uid lang m item e) (add_lang-IsValid uid lang m item e v)))

-- A write of a session that does not panic.
abbrev pub Puts : AgentMap → Option (AgentMap × Bool) → Type 0
Puts m o = (m' : AgentMap) × (b : Bool) × (o ≡ some (m', b)) × Extends m m'

put_session-Puts :
    (uid : String) (s : Session) (item : Item) (m : AgentMap)
    → lookup uid m.items ≡ some item
    → IsValid m
    → Puts m (put_session uid s item m)
unfolding put_session
put_session-Puts uid s item m e v = elim (Option-cases (lookup s.path (or_empty item.sessions))) [
  | inr (old, p) ↦ (m, false, rw (p, put_session) refl, (v, λ u h. h))
  | inl p ↦ elim (Option-cases item.sessions) [
    | inl q ↦ absurd (nil_invalid item q (found_valid uid m item v e))
    | inr (sessions, q) ↦
        let item' = record item { sessions = some (insert s.path s sessions) } in
        (
          with_item uid item' m,
          true,
          rw (p, put_session, q) refl,
          with_item-Extends uid item' m (
              with_item-IsValid uid item' m
                (session_valid item (found_valid uid m item v e) sessions s q) v),
        )
  ]
]

pub created :
    (uid : String) (m : AgentMap) → lookup uid (with_item uid new_item m).items ≡ some new_item
created uid m = ground (arith, lookup-insert uid uid new_item m.items, str_eq_self uid)

pub add_session-Puts :
    (uid : String) (s : Session) (m : AgentMap) → IsValid m → Puts m (add_session uid s m)
unfolding add_session
add_session-Puts uid s m v = elim (Option-cases (lookup uid m.items)) [
  | inr (item, e) ↦
      let (m', b, p, x) = put_session-Puts uid s item m e v in (m', b, rw (e, add_session) p, x)
  | inl e ↦
      let v1 = with_item-IsValid uid new_item m new_item_valid v in
      let (m', b, p, x) =
        put_session-Puts uid s new_item (with_item uid new_item m) (created uid m) v1 in
      (
        m',
        b,
        rw (e, add_session) p,
        Extends-trans m (with_item uid new_item m) m' (with_item-Extends uid new_item m v1) x,
      )
]

set_active_uid-Extends :
    (uid : String) (m m' : AgentMap) → Extends m m' → Extends m (set_active_uid uid m')
unfolding has_user
set_active_uid-Extends uid m m' x = x

watch_session-Extends :
    (login : Login) (uid path : String) (m m' : AgentMap)
    → Extends m m'
    → Extends m (watch_session login uid path m')
unfolding watch_session has_user
watch_session-Extends login uid path m m' x = elim (Option-cases (login.session_active path)) [
  | inl e ↦ rw (e, watch_session) x
  | inr (a, e) ↦ elim (Bool-cases a) [
    | inl f ↦ rw (e, watch_session, f, if◌then◌else◌) x
    | inr f ↦ rw (e, watch_session, f, if◌then◌else◌) x
  ]
]

watch_new-Runs :
    (login : Login) (uid path : String) (m : AgentMap)
    → IsValid m
    → Runs m (watch_new login uid path m)
unfolding watch_new
watch_new-Runs login uid path m v =
    let (m', b, p, x) = add_session-Puts uid (record { path = path }) m v in
    elim (Bool-cases b) [
      | inl f ↦ (
        watch_session login uid path m',
        rw (p, watch_new, f, if◌then◌else◌) refl,
        watch_session-Extends login uid path m m' x,
      )
      | inr f ↦ (m', rw (p, watch_new, f, if◌then◌else◌) refl, x)
    ]

pub handle_session_new-Runs :
    (login : Login) (path : String) (m : AgentMap)
    → IsValid m
    → Runs m (handle_session_new login path m)
unfolding handle_session_new
handle_session_new-Runs login path m v = elim (Bool-cases (login.new_session path)) [
  | inr n ↦ rw (n, handle_session_new, if◌then◌else◌) (stay-Runs m v)
  | inl n ↦ elim (Option-cases (login.session_type path)) [
    | inl t ↦ rw (n, handle_session_new, if◌then◌else◌, t) (stay-Runs m v)
    | inr (kind, t) ↦ elim (Bool-cases (str_eq kind "tty")) [
      | inl y ↦ rw (n, handle_session_new, if◌then◌else◌, t, y) (stay-Runs m v)
      | inr y ↦ elim (Option-cases (login.session_user path)) [
        | inl o ↦ rw (n, handle_session_new, if◌then◌else◌, t, y, o) (stay-Runs m v)
        | inr (uid, o) ↦
            rw (n, handle_session_new, if◌then◌else◌, t, y, o) (watch_new-Runs login uid path m v)
      ]
    ]
  ]
]

pub add_user-has_user : (uid : String) (m : AgentMap) → has_user uid (add_user uid m) ≡ true
unfolding has_user add_user
add_user-has_user uid m = elim (Option-cases (lookup uid m.items)) [
  | inl e ↦ rw (e, add_user, has_user, created uid m) refl
  | inr (item, e) ↦ rw (e, add_user, has_user, e) refl
]
