-- ===== src/Routing/Ring/Disruption.antt =====
-- How much of the routing changes when a node of ring.go joins or leaves.
use mathlib.Core.Path.{subst}
use gale_lb.Prelude.{
  ℕ, ◌≡◌, ◌≢◌, ◌⊎◌, sym, ap, ◌∙◌, inl, inr, none, some, arith, false, Bool-cases, Option-cases,
  Occurs,
}
use gale_lb.Prelude.Equality.{nat_eq}
use gale_lb.Prelude.Map.{lookup}
use gale_lb.Prelude.Text.{Str}
use gale_lb.Routing.Label.{AddrKey, addr_to_string}
use gale_lb.Routing.Ring.{Ring, Hasher, owner, point_of, get_node, add_node, remove_node}
use gale_lb.Routing.Ring.Clockwise.{IsNearest, IsNearest-unique}
use gale_lb.Routing.Ring.Nearest.{IsOrdered, point_of-IsNearest, point_of-total, get_node-point_of}
use gale_lb.Routing.Ring.Members.{
  hashes_of, contains, contains_iff, add_node-hasher, add_node-Occurs, add_node-lookup,
  remove_node-hasher, remove_node-lookup, remove_node-Occurs,
}
use gale_lb.Routing.Ring.Invariant.{IsIndexed, add_node-IsOrdered, remove_node-IsOrdered}

pub point_of-on_ring :
    (r : Ring) (key : Str) (p : ℕ) → IsOrdered r → point_of r key ≡ some p → Occurs p r.ring
point_of-on_ring r key p v e = (point_of-IsNearest r key p v e).on_ring

-- Where no point is selected the ring has none.
pub point_of-none :
    (r : Ring) (key : Str) (q : ℕ) → IsOrdered r → point_of r key ≡ none → ¬ Occurs q r.ring
point_of-none r key q v e o =
    let (p, found) = point_of-total r key v (λ nil. subst (Occurs q) nil o) in cc

pub get_node-none : (r : Ring) (key : Str) → point_of r key ≡ none → get_node r key ≡ none
unfolding get_node
get_node-none r key e = rw (e, get_node)

-- A point that a larger ring selects is selected by every smaller ring that has it.
pub point_of-subset :
    (r s : Ring) (key : Str) (p : ℕ)
    → IsOrdered r
    → IsOrdered s
    → s.hasher ≡ r.hasher
    → ((q : ℕ) → Occurs q r.ring → Occurs q s.ring)
    → Occurs p r.ring
    → point_of s key ≡ some p
    → point_of r key ≡ some p
point_of-subset r s key p v w same sub o e =
    let (p', found) = point_of-total r key v (λ nil. subst (Occurs p) nil o) in
    let in_s : IsNearest (r.hasher key) p s.ring =
      subst (λ (h : Hasher). IsNearest (h key) p s.ring) same (point_of-IsNearest s key p w e) in
    let in_r : IsNearest (r.hasher key) p r.ring = record {
      on_ring = o;
      nearest = λ q oq. in_s.nearest q (sub q oq);
    } in
    found
    ∙ ap some (
        IsNearest-unique (r.hasher key) p' p r.ring (v.hashes_fit key) v.fits
          (point_of-IsNearest r key p' v found) in_r)

pub owner-lookup : (r : Ring) (p : ℕ) (w : AddrKey) → lookup p r.nodes ≡ some w → owner r p ≡ w
unfolding owner
owner-lookup r p w e = rw (e, owner)

owner_same : (r s : Ring) (p : ℕ) → lookup p s.nodes ≡ lookup p r.nodes → owner s p ≡ owner r p
unfolding owner
owner_same r s p e = rw (e, owner)

pub get_node_same :
    (r s : Ring) (key : Str) (p : ℕ)
    → point_of r key ≡ some p
    → point_of s key ≡ some p
    → lookup p s.nodes ≡ lookup p r.nodes
    → get_node s key ≡ get_node r key
get_node_same r s key p er es e =
    get_node-point_of s key es
    ∙ ap (λ a. some (addr_to_string a)) (owner_same r s p e)
    ∙ sym (get_node-point_of r key er)

module _ (r : Ring) (node : AddrKey) (key : Str) (v : IsOrdered r) where
  point_added :
      (p : ℕ)
      → point_of (add_node r node) key ≡ some p
      → (get_node (add_node r node) key ≡ get_node r key)
        ⊎ (get_node (add_node r node) key ≡ some (addr_to_string node))
  point_added p e = elim (Bool-cases (contains p (hashes_of r node))) [
    | inl own ↦ inr (
        get_node-point_of (add_node r node) key e
        ∙ ap (λ a. some (addr_to_string a))
            (owner-lookup (add_node r node) p node (rw (add_node-lookup, own))))
    | inr other ↦
        let on_old : Occurs p r.ring =
          elim ((add_node-Occurs r node p).0
            (point_of-on_ring (add_node r node) key p (add_node-IsOrdered r node v) e)) [
              | inl old ↦ old
              | inr h ↦ absurd (ground (arith, (contains_iff p (hashes_of r node)).1 h))
            ] in
        inl (
          get_node_same r (add_node r node) key p
            (point_of-subset r (add_node r node) key p v (add_node-IsOrdered r node v)
              (add_node-hasher r node).0 (λ q o. (add_node-Occurs r node q).1 (inl o)) on_old e)
            e (rw (add_node-lookup, other)))
  ]

  -- Adding a node to an ordered ring moves requests to that node only: every request keeps its
  -- answer or goes to the new node.
  pub add_node_disruption :
      (get_node (add_node r node) key ≡ get_node r key)
      ⊎ (get_node (add_node r node) key ≡ some (addr_to_string node))
  add_node_disruption = elim (Option-cases (point_of (add_node r node) key)) [
    | inr (p, e) ↦ point_added p e
    | inl e ↦ elim (Option-cases (point_of r key)) [
      | inl old ↦ inl (get_node-none (add_node r node) key e ∙ sym (get_node-none r key old))
      | inr (p, old) ↦ absurd (
          point_of-none (add_node r node) key p (add_node-IsOrdered r node v) e
            ((add_node-Occurs r node p).1 (inl (point_of-on_ring r key p v old))))
    ]
  ]

-- The node owns all its virtual nodes: no hash of another node collided with one of them.
abbrev pub Owns : Ring → AddrKey → Type 0
Owns r node = (q : ℕ) → Occurs q (hashes_of r node) → lookup q r.nodes ≡ some node

module _ (r : Ring) (node : AddrKey) (v : IsOrdered r) (agree : IsIndexed r) where
  removed_subset : (q : ℕ) → Occurs q (remove_node r node).ring → Occurs q r.ring
  removed_subset q o =
      let (w, e) = (remove_node-Occurs r node q).0 o in
      (agree q).1 (w, ground (arith, remove_node-lookup r node q))

  kept_point :
      (p : ℕ)
      → Occurs p r.ring
      → contains p (hashes_of r node) ≡ false
      → Occurs p (remove_node r node).ring
  kept_point p o other =
      let (w, e) = (agree p).0 o in
      (remove_node-Occurs r node p).1 (w, rw (remove_node-lookup, other) e)

  point_kept :
      (key : Str) (p : ℕ)
      → point_of r key ≡ some p
      → contains p (hashes_of r node) ≡ false
      → get_node (remove_node r node) key ≡ get_node r key
  point_kept key p e other =
      get_node_same r (remove_node r node) key p e
        (point_of-subset (remove_node r node) r key p (remove_node-IsOrdered r node v) v
          (sym (remove_node-hasher r node).0) removed_subset
          (kept_point p (point_of-on_ring r key p v e) other) e)
        (rw (remove_node-lookup, other))

  -- On an ordered ring whose points and keys agree, where the node owns all its virtual nodes,
  -- removing it leaves alone every request that it did not serve.
  pub remove_node_disruption :
      (key : Str)
      → Owns r node
      → get_node r key ≢ some (addr_to_string node)
      → get_node (remove_node r node) key ≡ get_node r key
  remove_node_disruption key owns other = elim (Option-cases (point_of r key)) [
    | inl e ↦ elim (Option-cases (point_of (remove_node r node) key)) [
      | inl e' ↦ get_node-none (remove_node r node) key e' ∙ sym (get_node-none r key e)
      | inr (p, e') ↦ absurd (
          point_of-none r key p v e (
            removed_subset p
              (point_of-on_ring (remove_node r node) key p (remove_node-IsOrdered r node v) e')))
    ]
    | inr (p, e) ↦ elim (Bool-cases (contains p (hashes_of r node))) [
      | inr free ↦ point_kept key p e free
      | inl own ↦ absurd (
          other (
            get_node-point_of r key e
            ∙ ap (λ a. some (addr_to_string a))
                (owner-lookup r p node (owns p ((contains_iff p _).0 own)))))
    ]
  ]
