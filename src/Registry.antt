-- ===== src/Registry.antt =====
-- pkg/registry/registry.go. Each method holds the global lock from its first line to its last, so it
-- is one function of the whole state; a `*node` is reachable through its one key only, so a write
-- through the pointer is a write of the entry. The clock is an argument; logging is left out.
pub mod History
pub mod Past
mod Tests
use gale_lb.Prelude.{ℕ, ◌+◌, ◌%◌, ◌^◌, Option, none, some, []}
use gale_lb.Prelude.Equality.{bytes_eq}
use gale_lb.Prelude.Map.{Map, lookup, insert}
use gale_lb.Prelude.Text.{Str}

-- A `uint` has 64 bits; a `time.Time` is a number of nanoseconds, 0 for the zero value.
pub record Node : Type 0 where
  pub continuous_health_checks : ℕ
  pub last_health_check : ℕ

pub record NodeRegistry : Type 0 where
  pub registry : Map Str Node
  pub black_list : Map Str ℕ

unfoldable pub new_registry : NodeRegistry
new_registry = record { registry = []; black_list = [] }

-- `&node{}`
abbrev pub new_node : Node
new_node = record { continuous_health_checks = 0; last_health_check = 0 }

unfoldable pub register_node : NodeRegistry → Str → NodeRegistry
register_node n node_key = elim (lookup node_key n.registry) [
  | some _ ↦ n
  | none ↦ record n { registry = insert node_key new_node n.registry }
]

abbrev pub uint_mod : ℕ
uint_mod = 2 ^ 64

-- A key that is missing is logged and changes nothing.
unfoldable pub report_new_health_check : NodeRegistry → Str → ℕ → NodeRegistry
report_new_health_check n node_key now = elim (lookup node_key n.registry) [
  | none ↦ n
  | some info ↦ record n {
    registry =
        insert node_key
          (record {
            continuous_health_checks = (info.continuous_health_checks + 1) % uint_mod;
            last_health_check = now;
          })
          n.registry;
  }
]

unfoldable pub report_node_failure : NodeRegistry → Str → NodeRegistry
report_node_failure n node_key = elim (lookup node_key n.registry) [
  | none ↦ n
  | some info ↦ record n {
    registry = insert node_key (record info { continuous_health_checks = 0 }) n.registry;
  }
]
