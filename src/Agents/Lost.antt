-- ===== src/Agents/Lost.antt =====
-- Which agents are left when a bus name is lost (src/lastore-daemon/agent.go).
use lastore_daemon.Base.{
  Bool, true, not, String, str_eq, ◌≡◌, arith, Option-cases, inl, inr, ◌∙◌, ap,
}
use lastore_daemon.Base.Assoc.{
  Assoc, lookup, keep_values, distinct, lookup-map_values, lookup-keep_values, filter_option,
}
use lastore_daemon.Agents.{Agent, AgentMap, lose_name, handle_name_lost}
use lastore_daemon.Agents.Valid.{IsValid}
use lastore_daemon.Agents.Recovered.{view, sender_of}
use lastore_daemon.Agents.Restart.{name_at, view-distinct}

keep_named : String → Agent → Bool
keep_named name agent = not (str_eq agent.service_name name)

view-handle_name_lost :
    (name u : String) (m : AgentMap)
    → (view u (handle_name_lost name m)).0 ≡ keep_values (keep_named name) (view u m).0
unfolding view handle_name_lost keep_values keep_named
view-handle_name_lost name u m = elim (Option-cases (lookup u m.items)) [
  | inl e ↦ ground (arith, lookup-map_values (lose_name name) u m.items)
  | inr (item, e) ↦ elim (Option-cases item.agents) [
    | inl n ↦ ground (arith, lookup-map_values (lose_name name) u m.items)
    | inr (agents, n) ↦ ground (arith, lookup-map_values (lose_name name) u m.items)
  ]
]

name_at-keep_values :
    (name path : String) (agents : Assoc Agent)
    → distinct agents ≡ true
    → name_at path (keep_values (keep_named name) agents)
      ≡ filter_option (λ s. not (str_eq s name)) (name_at path agents)
unfolding keep_named
name_at-keep_values name path agents d =
    ground (arith, lookup-keep_values (keep_named name) path agents)

-- When a bus name is lost, a user of a valid map has at each path the agent of before, unless
-- that agent has the lost name: then there is none.
pub sender_of-handle_name_lost :
    (name u path : String) (m : AgentMap)
    → IsValid m
    → sender_of u path (handle_name_lost name m)
      ≡ filter_option (λ s. not (str_eq s name)) (sender_of u path m)
unfolding sender_of
sender_of-handle_name_lost name u path m v =
    ap (name_at path) (view-handle_name_lost name u m)
    ∙ name_at-keep_values name path (view u m).0 (view-distinct u m v)
