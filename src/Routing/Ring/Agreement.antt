-- ===== src/Routing/Ring/Agreement.antt =====
-- Two rings of ring.go that differ only in the order in which their maps and points came about.
use mathlib.Core.Path.{subst}
use gale_lb.Prelude.{
  ℕ, ◌≡◌, ◌↔◌, refl, ◌⊎◌, sym, ◌∙◌, inl, inr, some, Bool-cases, Option-cases, Occurs, if◌then◌else◌,
}
use gale_lb.Prelude.Equality.{nat_eq}
use gale_lb.Prelude.Map.{lookup}
use gale_lb.Prelude.Text.{Str}
use gale_lb.Routing.Label.{AddrKey}
use gale_lb.Routing.Ring.{Ring, rounds, virtual_hashes, point_of, get_node, add_node}
use gale_lb.Routing.Ring.Nearest.{IsOrdered}
use gale_lb.Routing.Ring.Members.{
  hashes_of, contains, contains_iff, add_node-hasher, add_node-Occurs, add_node-lookup,
}
use gale_lb.Routing.Ring.Disruption.{
  point_of-on_ring, point_of-none, get_node-none, point_of-subset, get_node_same,
}

-- The same points, under the same hash function, with the same owners.
pub record Agrees (r s : Ring) : Type 0 where
  pub same_hasher : s.hasher ≡ r.hasher
  pub same_number : s.num_virtual_nodes ≡ r.num_virtual_nodes
  pub same_points : (q : ℕ) → Occurs q s.ring ↔ Occurs q r.ring
  pub same_owners : (q : ℕ) → lookup q s.nodes ≡ lookup q r.nodes

pub Agrees-refl : (r : Ring) → Agrees r r
Agrees-refl r = record {
  same_hasher = refl;
  same_number = refl;
  same_points = λ q. (λ o. o, λ o. o);
  same_owners = λ q. refl;
}

pub Agrees-trans : (r s t : Ring) → Agrees r s → Agrees s t → Agrees r t
Agrees-trans r s t a b = record {
  same_hasher = b.same_hasher ∙ a.same_hasher;
  same_number = b.same_number ∙ a.same_number;
  same_points = λ q. (
    λ o. (a.same_points q).0 ((b.same_points q).0 o),
    λ o. (b.same_points q).1 ((a.same_points q).1 o),
  );
  same_owners = λ q. b.same_owners q ∙ a.same_owners q;
}

pub get_node-Agrees :
    (r s : Ring) (key : Str)
    → IsOrdered r
    → IsOrdered s
    → Agrees r s
    → get_node s key ≡ get_node r key
get_node-Agrees r s key v w same = elim (Option-cases (point_of r key)) [
  | inr (p, e) ↦
      get_node_same r s key p e
        (point_of-subset s r key p w v (sym same.same_hasher) (λ q. (same.same_points q).0)
          ((same.same_points p).1 (point_of-on_ring r key p v e)) e)
        (same.same_owners p)
  | inl e ↦ elim (Option-cases (point_of s key)) [
    | inl e' ↦ get_node-none s key e' ∙ sym (get_node-none r key e)
    | inr (p, e') ↦
        absurd (point_of-none r key p v e ((same.same_points p).0 (point_of-on_ring s key p w e')))
  ]
]

-- A node's hashes do not depend on who else is there.
pub add_node-hashes_of : (r : Ring) (a b : AddrKey) → hashes_of (add_node r a) b ≡ hashes_of r b
add_node-hashes_of r a b =
    let (h, n) = add_node-hasher r a in λ i. virtual_hashes (h i) b 0 (rounds (n i))

module _ (r : Ring) (a b : AddrKey) where
  abbrev both : Ring
  both = add_node (add_node r a) b

  both_cases :
      (q : ℕ)
      → Occurs q both.ring
      → Occurs q r.ring ⊎ (Occurs q (hashes_of r a) ⊎ Occurs q (hashes_of r b))
  both_cases q o = elim ((add_node-Occurs (add_node r a) b q).0 o) [
    | inr h ↦ inr (inr (subst (Occurs q) (add_node-hashes_of r a b) h))
    | inl l ↦ elim ((add_node-Occurs r a q).0 l) [ inl old ↦ inl old | inr h ↦ inr (inl h) ]
  ]

  both_back :
      (q : ℕ)
      → Occurs q r.ring ⊎ (Occurs q (hashes_of r a) ⊎ Occurs q (hashes_of r b))
      → Occurs q both.ring
  both_back q (inr (inr h)) =
      (add_node-Occurs (add_node r a) b q).1
        (inr (subst (Occurs q) (sym (add_node-hashes_of r a b)) h))
  both_back q (inr (inl h)) =
      (add_node-Occurs (add_node r a) b q).1 (inl ((add_node-Occurs r a q).1 (inr h)))
  both_back q (inl old) =
      (add_node-Occurs (add_node r a) b q).1 (inl ((add_node-Occurs r a q).1 (inl old)))

  both-lookup :
      (q : ℕ)
      → lookup q both.nodes ≡ (
          if contains q (hashes_of r b)
          then some b
          else if contains q (hashes_of r a)
          then some a
          else lookup q r.nodes)
  both-lookup q =
      rw (add_node-lookup (add_node r a) b q, add_node-hashes_of r a b, add_node-lookup r a q)

swapped_points :
    (r : Ring) (a b : AddrKey) (q : ℕ) → Occurs q (both r b a).ring → Occurs q (both r a b).ring
swapped_points r a b q o = both_back r a b q (elim (both_cases r b a q o) [
  | inl old ↦ inl old
  | inr (inl h) ↦ inr (inr h)
  | inr (inr h) ↦ inr (inl h)
])

both-hasher :
    (r : Ring) (a b : AddrKey)
    → ((both r a b).hasher ≡ r.hasher) × ((both r a b).num_virtual_nodes ≡ r.num_virtual_nodes)
both-hasher r a b =
    let (h, n) = add_node-hasher r a in
    let (h', n') = add_node-hasher (add_node r a) b in (h' ∙ h, n' ∙ n)

module _ (r : Ring) (a b : AddrKey)
    (apart : (q : ℕ) → Occurs q (hashes_of r a) → ¬ Occurs q (hashes_of r b)) where
  swapped_owners : (q : ℕ) → lookup q (both r b a).nodes ≡ lookup q (both r a b).nodes
  swapped_owners q = elim (Bool-cases (contains q (hashes_of r a))) [
    | inr free ↦ rw (both-lookup r a b q, both-lookup r b a q, free)
    | inl own ↦ elim (Bool-cases (contains q (hashes_of r b))) [
      | inr free ↦ rw (both-lookup r a b q, both-lookup r b a q, own, free)
      | inl taken ↦ absurd (apart q ((contains_iff q _).0 own) ((contains_iff q _).0 taken))
    ]
  ]

  pub swapped-Agrees : Agrees (both r a b) (both r b a)
  swapped-Agrees = record {
    same_hasher = (both-hasher r b a).0 ∙ sym (both-hasher r a b).0;
    same_number = (both-hasher r b a).1 ∙ sym (both-hasher r a b).1;
    same_points = λ q. (swapped_points r a b q, swapped_points r b a q);
    same_owners = swapped_owners;
  }

pub add_node-Agrees :
    (r s : Ring) (node : AddrKey) → Agrees r s → Agrees (add_node r node) (add_node s node)
add_node-Agrees r s node same = record {
  same_hasher = (add_node-hasher s node).0 ∙ same.same_hasher ∙ sym (add_node-hasher r node).0;
  same_number = (add_node-hasher s node).1 ∙ same.same_number ∙ sym (add_node-hasher r node).1;
  same_points = λ q. (
    λ o. (add_node-Occurs r node q).1 (elim ((add_node-Occurs s node q).0 o) [
      | inl old ↦ inl ((same.same_points q).0 old)
      | inr h ↦ inr (subst (Occurs q) hashes h)
    ]),
    λ o. (add_node-Occurs s node q).1 (elim ((add_node-Occurs r node q).0 o) [
      | inl old ↦ inl ((same.same_points q).1 old)
      | inr h ↦ inr (subst (Occurs q) (sym hashes) h)
    ]),
  );
  same_owners =
      λ q. rw (add_node-lookup s node q, add_node-lookup r node q, hashes, same.same_owners q);
}
  where
    hashes : hashes_of s node ≡ hashes_of r node
    hashes = λ i. virtual_hashes (same.same_hasher i) node 0 (rounds (same.same_number i))
