-- ===== src/Agents/Recovered.antt =====
-- What is known of the agents after a restart (src/lastore-daemon/agent.go).
use lastore_daemon.Base.{
  Bool, true, [], Option, none, some, String, str_eq, str_eq_iff, str_eq_self, if◌then◌else◌, ◌≡◌,
  refl, arith, Option-cases, Bool-cases, inl, inr, ◌∙◌, ap, subst, sym, ◌&&◌, not,
}
use lastore_daemon.Base.Assoc.{Assoc, lookup, insert, lookup-insert}
use lastore_daemon.Agents.{
  Agent, Session, Item, AgentMap, or_empty, new_item, with_item, put_session, add_session,
}
use lastore_daemon.Agents.Handlers.{Login, watch_session, watch_new, handle_session_new}

-- The agents and the language of a user; a user that is not there has neither.
unfoldable pub view : String → AgentMap → Assoc Agent × String
view uid m = elim (lookup uid m.items) [
  | none ↦ ([], "")
  | some item ↦ (or_empty item.agents, item.lang)
]

-- The bus name of the agent that a user has at a path.
unfoldable pub sender_of : String → String → AgentMap → Option String
unfolding view
sender_of uid path m = elim (lookup path (view uid m).0) [
  | none ↦ none
  | some agent ↦ some agent.service_name
]

unfoldable pub lang_of : String → AgentMap → String
unfolding view
lang_of uid m = (view uid m).1

abbrev pub SameView : AgentMap → AgentMap → Type 0
SameView m m' = (u : String) → view u m' ≡ view u m

pub view-with_item :
    (uid u : String) (item : Item) (m : AgentMap)
    → view u (with_item uid item m)
      ≡ (if str_eq uid u then (or_empty item.agents, item.lang) else view u m)
unfolding view
view-with_item uid u item m = ground (arith, lookup-insert uid u item m.items)

view_found :
    (uid u : String) (item : Item) (m : AgentMap)
    → lookup uid m.items ≡ some item
    → str_eq uid u ≡ true
    → view u m ≡ (or_empty item.agents, item.lang)
unfolding view
view_found uid u item m e s = ground (arith, str_eq_iff uid u)

view_missing :
    (uid u : String) (m : AgentMap)
    → lookup uid m.items ≡ none
    → str_eq uid u ≡ true
    → view u m ≡ ([], "")
unfolding view
view_missing uid u m e s = ground (arith, str_eq_iff uid u)

new_item-SameView :
    (uid : String) (m : AgentMap)
    → lookup uid m.items ≡ none
    → SameView m (with_item uid new_item m)
new_item-SameView uid m e u = elim (Bool-cases (str_eq uid u)) [
  | inl s ↦
      view-with_item uid u new_item m
      ∙ ap (λ b. if b then ([], "") else view u m) s
      ∙ sym (view_missing uid u m e s)
  | inr s ↦ view-with_item uid u new_item m ∙ ap (λ b. if b then ([], "") else view u m) s
]

changed-SameView :
    (uid : String) (item item' : Item) (m : AgentMap)
    → lookup uid m.items ≡ some item
    → item'.agents ≡ item.agents
    → item'.lang ≡ item.lang
    → SameView m (with_item uid item' m)
changed-SameView uid item item' m e p q u = elim (Bool-cases (str_eq uid u)) [
  | inl s ↦ ground (arith, view-with_item uid u item' m, view_found uid u item m e s)
  | inr s ↦ ground (arith, view-with_item uid u item' m)
]

-- The agents, the languages and the active user are the same.
abbrev Seen : AgentMap → AgentMap → Type 0
Seen m m' = SameView m m' × (m'.active_uid ≡ m.active_uid)

put_session-Seen :
    (uid : String) (s : Session) (item : Item) (m m' : AgentMap) (b : Bool)
    → lookup uid m.items ≡ some item
    → put_session uid s item m ≡ some (m', b)
    → Seen m m'
unfolding put_session
put_session-Seen uid s item m m' b e p =
    elim (Option-cases (lookup s.path (or_empty item.sessions))) [
      | inr (old, q) ↦ subst (Seen m) (ground arith) ((λ u. refl), refl)
      | inl q ↦ elim (Option-cases item.sessions) [
        | inl n ↦ absurd (ground arith)
        | inr (sessions, n) ↦
            let item' = record item { sessions = some (insert s.path s sessions) } in
            subst (Seen m) {x = with_item uid item' m} (ground arith)
              (changed-SameView uid item item' m e refl refl, refl)
      ]
    ]

Seen-trans : (a b c : AgentMap) → Seen a b → Seen b c → Seen a c
Seen-trans a b c (f, e) (g, e') = ((λ u. g u ∙ f u), e' ∙ e)

add_session-Seen :
    (uid : String) (s : Session) (m m' : AgentMap) (b : Bool)
    → add_session uid s m ≡ some (m', b)
    → Seen m m'
unfolding add_session
add_session-Seen uid s m m' b p = elim (Option-cases (lookup uid m.items)) [
  | inr (item, e) ↦ put_session-Seen uid s item m m' b e (sym (rw (e, add_session) refl) ∙ p)
  | inl e ↦
      Seen-trans m (with_item uid new_item m) m' ((new_item-SameView uid m e), refl)
        (put_session-Seen uid s new_item (with_item uid new_item m) m' b
          (ground (arith, lookup-insert uid uid new_item m.items, str_eq_self uid))
          (sym (rw (e, add_session) refl) ∙ p))
]

-- The agents and the languages are the same, and the active user is still a given one.
abbrev pub Stays : String → AgentMap → AgentMap → Type 0
Stays a m m' = SameView m m' × (m'.active_uid ≡ a)

watch_session-Stays :
    (login : Login) (uid path : String) (m m' : AgentMap)
    → SameView m m'
    → m'.active_uid ≡ uid
    → Stays uid m (watch_session login uid path m')
unfolding watch_session view
watch_session-Stays login uid path m m' f e = elim (Option-cases (login.session_active path)) [
  | inl o ↦ rw (o, watch_session) (f, e)
  | inr (a, o) ↦ elim (Bool-cases a) [
    | inl t ↦ rw (o, watch_session, t, if◌then◌else◌) (f, refl)
    | inr t ↦ rw (o, watch_session, t, if◌then◌else◌) (f, e)
  ]
]

watch_new-Stays :
    (login : Login) (uid path : String) (m m' : AgentMap)
    → m.active_uid ≡ uid
    → watch_new login uid path m ≡ some m'
    → Stays uid m m'
unfolding watch_new
watch_new-Stays login uid path m m' e p =
    elim (Option-cases (add_session uid (record { path = path }) m)) [
      | inl o ↦ absurd (ground arith)
      | inr ((m1, b), o) ↦
          let (f, e1) = add_session-Seen uid (record { path = path }) m m1 b o in
          elim (Bool-cases b) [
            | inl t ↦
                subst (Stays uid m) {x = watch_session login uid path m1} (ground arith)
                  (watch_session-Stays login uid path m m1 f (e1 ∙ e))
            | inr t ↦ subst (Stays uid m) {x = m1} (ground arith) (f, e1 ∙ e)
          ]
    ]

pub handle_session_new-Stays :
    (login : Login) (a path : String) (m m' : AgentMap)
    → ((uid : String) → login.session_user path ≡ some uid → uid ≡ a)
    → m.active_uid ≡ a
    → handle_session_new login path m ≡ some m'
    → Stays a m m'
unfolding handle_session_new
handle_session_new-Stays login a path m m' g e p = elim (Option-cases (login.session_user path)) [
  | inl o ↦ subst (Stays a m) {x = m} (ground arith) ((λ u. refl), e)
  | inr (uid, o) ↦ elim (Option-cases (login.session_type path)) [
    | inl t ↦ subst (Stays a m) {x = m} (ground arith) ((λ u. refl), e)
    | inr (kind, t) ↦ elim (Bool-cases (login.new_session path && not (str_eq kind "tty"))) [
      | inr n ↦ subst (Stays a m) {x = m} (ground arith) ((λ u. refl), e)
      | inl n ↦
          subst (λ x. Stays x m m') (g uid o)
            (watch_new-Stays login uid path m m' (e ∙ sym (g uid o)) (ground arith))
    ]
  ]
]
