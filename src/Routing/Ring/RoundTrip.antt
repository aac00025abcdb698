-- ===== src/Routing/Ring/RoundTrip.antt =====
-- `removeNode` undoes `addNode` in ring.go, as far as the routing goes.
use gale_lb.Prelude.{ℕ, ◌≡◌, ◌↔◌, sym, ◌∙◌, inl, inr, none, true, Bool-cases, Option-cases, Occurs}
use gale_lb.Prelude.Equality.{nat_eq}
use gale_lb.Prelude.Map.{lookup}
use gale_lb.Prelude.Text.{Str}
use gale_lb.Routing.Label.{AddrKey}
use gale_lb.Routing.Ring.{Ring, get_node, add_node, remove_node}
use gale_lb.Routing.Ring.Nearest.{IsOrdered}
use gale_lb.Routing.Ring.Members.{
  hashes_of, contains, contains_iff, add_node-hasher, add_node-lookup, remove_node-hasher,
  remove_node-lookup, remove_node-Occurs,
}
use gale_lb.Routing.Ring.Invariant.{IsIndexed, add_node-IsOrdered, remove_node-IsOrdered}
use gale_lb.Routing.Ring.Agreement.{get_node-Agrees, add_node-hashes_of}

module _ (r : Ring) (node : AddrKey) (key : Str) (v : IsOrdered r) (agree : IsIndexed r)
    (fresh : (q : ℕ) → Occurs q (hashes_of r node) → ¬ Occurs q r.ring) where
  abbrev restored : Ring
  restored = remove_node (add_node r node) node

  restored-IsOrdered : IsOrdered restored
  restored-IsOrdered = remove_node-IsOrdered (add_node r node) node (add_node-IsOrdered r node v)

  same_hashes : hashes_of (add_node r node) node ≡ hashes_of r node
  same_hashes = add_node-hashes_of r node node

  same_hasher : restored.hasher ≡ r.hasher
  same_hasher = (remove_node-hasher (add_node r node) node).0 ∙ (add_node-hasher r node).0

  was_free : (q : ℕ) → contains q (hashes_of r node) ≡ true → lookup q r.nodes ≡ none
  was_free q own = elim (Option-cases (lookup q r.nodes)) [
    | inl e ↦ e
    | inr (w, e) ↦ absurd (fresh q ((contains_iff q _).0 own) ((agree q).1 (w, e)))
  ]

  restored-lookup : (q : ℕ) → lookup q restored.nodes ≡ lookup q r.nodes
  restored-lookup q = elim (Bool-cases (contains q (hashes_of r node))) [
    | inl own ↦
        rw (remove_node-lookup (add_node r node) node q, same_hashes, own) (sym (was_free q own))
    | inr other ↦ rw (
      remove_node-lookup (add_node r node) node q,
      same_hashes,
      other,
      add_node-lookup r node q,
      other,
    )
  ]

  restored-Occurs : (q : ℕ) → Occurs q restored.ring ↔ Occurs q r.ring
  restored-Occurs q = (
    λ o.
        let (w, e) = (remove_node-Occurs (add_node r node) node q).0 o in
        (agree q).1 (w, sym (restored-lookup q) ∙ e),
    λ o.
        let (w, e) = (agree q).0 o in
        (remove_node-Occurs (add_node r node) node q).1 (w, restored-lookup q ∙ e),
  )

  -- On an ordered ring whose points and keys agree, taking back a node that has just joined
  -- restores the answer to every request, if none of the node's hashes was on the ring before.
  pub remove_node-add_node : get_node (remove_node (add_node r node) node) key ≡ get_node r key
  remove_node-add_node = get_node-Agrees r restored key v restored-IsOrdered (record {
    same_hasher = same_hasher;
    same_number = (remove_node-hasher (add_node r node) node).1 ∙ (add_node-hasher r node).1;
    same_points = restored-Occurs;
    same_owners = restored-lookup;
  })
