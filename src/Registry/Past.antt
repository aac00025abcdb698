-- ===== src/Registry/Past.antt =====
-- The times that registry.go stores are not in the future.
use gale_lb.Prelude.{ℕ, ◌+◌, ◌≤◌, ◌≡◌, inl, inr, some, arith, Option-cases}
use gale_lb.Prelude.Equality.{bytes_eq}
use gale_lb.Prelude.Map.{lookup}
use gale_lb.Prelude.Text.{Str}
use gale_lb.Registry.{
  Node, NodeRegistry, new_registry, register_node, report_new_health_check, report_node_failure,
}
use gale_lb.Registry.History.{
  lookup-register_node, lookup-report_new_health_check, lookup-report_node_failure,
}

abbrev pub IsPast : ℕ → NodeRegistry → Type 0
IsPast now n = (k : Str) (v : Node) → lookup k n.registry ≡ some v → v.last_health_check ≤ now

pub new_registry-IsPast : (now : ℕ) → IsPast now new_registry
unfolding new_registry lookup
new_registry-IsPast now k v e = absurd (cc)

pub IsPast-weaken : (now d : ℕ) (n : NodeRegistry) → IsPast now n → IsPast (now + d) n
IsPast-weaken now d n h k v e = omega (arith, h k v e)

pub register_node-IsPast :
    (now : ℕ) (n : NodeRegistry) (j : Str) → IsPast now n → IsPast now (register_node n j)
register_node-IsPast now n j h k v e = elim (Option-cases (lookup k n.registry)) [
  | inl missing ↦ ground (arith, lookup-register_node n j k)
  | inr (w, found) ↦ ground (arith, lookup-register_node n j k, h k w found)
]

pub report_new_health_check-IsPast :
    (now : ℕ) (n : NodeRegistry) (j : Str)
    → IsPast now n
    → IsPast now (report_new_health_check n j now)
report_new_health_check-IsPast now n j h k v e = elim (Option-cases (lookup k n.registry)) [
  | inl missing ↦ ground (arith, lookup-report_new_health_check n j k now)
  | inr (w, found) ↦ ground (arith, lookup-report_new_health_check n j k now, h k w found)
]

pub report_node_failure-IsPast :
    (now : ℕ) (n : NodeRegistry) (j : Str) → IsPast now n → IsPast now (report_node_failure n j)
report_node_failure-IsPast now n j h k v e = elim (Option-cases (lookup k n.registry)) [
  | inl missing ↦ ground (arith, lookup-report_node_failure n j k)
  | inr (w, found) ↦ ground (arith, lookup-report_node_failure n j k, h k w found)
]
