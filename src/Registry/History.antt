-- ===== src/Registry/History.antt =====
-- What registry.go stores after any history of calls, against a count of the calls themselves.
use gale_lb.Prelude.{
  ℕ, ◌+◌, ◌%◌, ◌≡◌, refl, ◌∙◌, inl, inr, Option, none, some, List, [], ◌∷◌, arith, Bool, false,
  ◌&&◌, ◌||◌, if◌then◌else◌, Option-cases,
}
use gale_lb.Prelude.Equality.{◌==◌, bytes_eq, eq_iff}
use gale_lb.Prelude.Map.{lookup, lookup-insert}
use gale_lb.Prelude.Text.{Str}
use gale_lb.Registry.{
  Node, NodeRegistry, new_registry, new_node, register_node, report_new_health_check,
  report_node_failure, uint_mod,
}

pub data Call : Type 0 where
  registers : Str → Call
  checks : Str → ℕ → Call
  fails : Str → Call

unfoldable pub apply : Call → NodeRegistry → NodeRegistry
apply (registers k) n = register_node n k
apply (checks k now) n = report_new_health_check n k now
apply (fails k) n = report_node_failure n k

-- The latest call stands first.
unfoldable pub run : List Call → NodeRegistry
unfolding apply
run [] = new_registry
run (c ∷ earlier) = apply c (run earlier)

-- Has the node been registered?
abbrev pub registered : Str → List Call → Bool
registered k [] = false
registered k (registers j ∷ h) = j == k || registered k h
registered k (checks j now ∷ h) = registered k h
registered k (fails j ∷ h) = registered k h

-- The health checks of a registered node since its last failure.
abbrev pub streak : Str → List Call → ℕ
streak k [] = 0
streak k (registers j ∷ h) = streak k h
streak k (checks j now ∷ h) = if j == k && registered k h then streak k h + 1 else streak k h
streak k (fails j ∷ h) = if j == k then 0 else streak k h

-- The time of its latest health check, failed since or not.
abbrev pub latest : Str → List Call → ℕ
latest k [] = 0
latest k (registers j ∷ h) = latest k h
latest k (checks j now ∷ h) = if j == k && registered k h then now else latest k h
latest k (fails j ∷ h) = latest k h

abbrev pub expected : Str → List Call → Option Node
expected k h =
    if registered k h
    then some (record {
      continuous_health_checks = streak k h % uint_mod;
      last_health_check = latest k h;
    })
    else none

unregistered_streak :
    (k : Str) (h : List Call) → registered k h ≡ false → (streak k h ≡ 0) × (latest k h ≡ 0)
unregistered_streak k [] e = (refl, refl)
unregistered_streak k (registers j ∷ h) e = ground (arith, unregistered_streak k h)
unregistered_streak k (checks j now ∷ h) e = ground (arith, unregistered_streak k h)
unregistered_streak k (fails j ∷ h) e = ground (arith, unregistered_streak k h)

-- The three methods, as a read of the registry sees them.
pub lookup-register_node :
    (n : NodeRegistry) (j k : Str)
    → lookup k (register_node n j).registry ≡ (
        if j == k
        then some (elim (lookup k n.registry) [ none ↦ new_node | some v ↦ v ])
        else lookup k n.registry)
unfolding register_node
lookup-register_node n j k = ground (arith, lookup-insert j k new_node n.registry, eq_iff j k)

pub lookup-report_new_health_check :
    (n : NodeRegistry) (j k : Str) (now : ℕ)
    → lookup k (report_new_health_check n j now).registry ≡ (
        if j == k
        then elim (lookup k n.registry) [
          | none ↦ none
          | some v ↦ some (record {
            continuous_health_checks = (v.continuous_health_checks + 1) % uint_mod;
            last_health_check = now;
          })
        ]
        else lookup k n.registry)
unfolding report_new_health_check
lookup-report_new_health_check n j k now = elim (Option-cases (lookup j n.registry)) [
  | inl e ↦ rw (e, report_new_health_check) (ground (arith, eq_iff j k))
  | inr (v, e) ↦
      rw (e, report_new_health_check)
        (ground (
          arith,
          lookup-insert j k
              (record {
                continuous_health_checks = (v.continuous_health_checks + 1) % uint_mod;
                last_health_check = now;
              })
              n.registry,
          eq_iff j k,
        ))
]

pub lookup-report_node_failure :
    (n : NodeRegistry) (j k : Str)
    → lookup k (report_node_failure n j).registry ≡ (
        if j == k
        then elim (lookup k n.registry) [
          | none ↦ none
          | some v ↦ some (record v { continuous_health_checks = 0 })
        ]
        else lookup k n.registry)
unfolding report_node_failure
lookup-report_node_failure n j k = elim (Option-cases (lookup j n.registry)) [
  | inl e ↦ rw (e, report_node_failure) (ground (arith, eq_iff j k))
  | inr (v, e) ↦
      rw (e, report_node_failure)
        (ground (
          arith,
          lookup-insert j k (record v { continuous_health_checks = 0 }) n.registry,
          eq_iff j k,
        ))
]

-- After any history of calls a registered node has its health checks since its last failure,
-- counted modulo 2 ^ 64, and the time of its latest one; no other node has an entry.
pub lookup-run : (h : List Call) (k : Str) → lookup k (run h).registry ≡ expected k h
unfolding run
lookup-run [] k = unfold new_registry lookup in refl
lookup-run (registers j ∷ h) k =
    lookup-register_node (run h) j k ∙ ground (arith, lookup-run h k, unregistered_streak k h)
lookup-run (checks j now ∷ h) k =
    lookup-report_new_health_check (run h) j k now ∙ ground (arith, lookup-run h k)
lookup-run (fails j ∷ h) k = lookup-report_node_failure (run h) j k ∙ ground (arith, lookup-run h k)

-- No call bans a node: whatever happens, the black list stays empty.
run-black_list : (h : List Call) → (run h).black_list ≡ []
unfolding run register_node report_new_health_check report_node_failure
run-black_list [] = unfold new_registry in refl
run-black_list (registers j ∷ h) = ground (arith, run-black_list h)
run-black_list (checks j now ∷ h) = ground (arith, run-black_list h)
run-black_list (fails j ∷ h) = ground (arith, run-black_list h)

abbrev pub key_of : Call → Str
key_of (registers k) = k
key_of (checks k now) = k
key_of (fails k) = k

-- A call about one node leaves the entries of all others alone.
pub lookup-apply_other :
    (c : Call) (n : NodeRegistry) (k : Str)
    → (key_of c == k) ≡ false
    → lookup k (apply c n).registry ≡ lookup k n.registry
unfolding apply
lookup-apply_other (registers j) n k e = lookup-register_node n j k ∙ rw e
lookup-apply_other (checks j now) n k e = lookup-report_new_health_check n j k now ∙ rw e
lookup-apply_other (fails j) n k e = lookup-report_node_failure n j k ∙ rw e
