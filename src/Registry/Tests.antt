-- ===== src/Registry/Tests.antt =====
-- Runs of registry.go, and its theorems at concrete histories.
use gale_lb.Prelude.{◌≡◌, refl, some, List, [], ◌∷◌}
use gale_lb.Prelude.Equality.{bytes_eq, bytes_beq}
use gale_lb.Prelude.Map.{lookup, insert}
use gale_lb.Prelude.Text.{codes}
use gale_lb.Registry.{new_registry, register_node, report_new_health_check, report_node_failure}
use gale_lb.Registry.History.{Call, registers, checks, fails, run, expected, lookup-run}

-- A check before the registration is lost; the failure resets the count and keeps the time.
abbrev history : List Call
history =
    checks (codes "a") 9
    ∷ fails (codes "a")
    ∷ checks (codes "a") 7
    ∷ checks (codes "b") 6
    ∷ registers (codes "a")
    ∷ checks (codes "a") 5
    ∷ []

history-run :
    lookup (codes "a") (run history).registry
    ≡ some (record { continuous_health_checks = 1; last_health_check = 9 })
unfolding run new_registry register_node report_new_health_check report_node_failure lookup insert
    bytes_beq
history-run = refl

lookup-run_example : lookup (codes "a") (run history).registry ≡ expected (codes "a") history
lookup-run_example = lookup-run history (codes "a")
