-- ===== src/Routing/Ring/Filler.antt =====
-- `newRing` makes a slice of 8192 zeros instead of an empty one. Until a node is removed they stay on
-- the ring, as points with no owner.
use mathlib.Core.Path.{subst, subst₂}
use gale_lb.Prelude.{
  ℕ, ◌<◌, ◌≡◌, refl, sym, ap, ◌∙◌, inl, inr, none, some, List, [], ◌∷◌, arith, Occurs, Bool-cases,
  All, Occurs-replicate,
}
use gale_lb.Prelude.Int.{ℤ}
use gale_lb.Prelude.Equality.{nat_eq}
use gale_lb.Prelude.Map.{lookup}
use gale_lb.Prelude.Text.{Str, codes}
use gale_lb.Routing.Label.{AddrKey, zero_addr, addr_to_string}
use gale_lb.Routing.Ring.{
  Ring, Hasher, new_ring, rounds, virtual_hashes, owner, get_node, add_node,
  max_number_virtual_node_entries,
}
use gale_lb.Routing.Ring.Clockwise.{u32_mod, IsNearest, IsNearest-unique}
use gale_lb.Routing.Ring.Nearest.{IsOrdered, get_node-IsNearest}
use gale_lb.Routing.Ring.Members.{
  hashes_of, contains, contains_iff, add_node-hasher, add_node-Occurs, add_node-lookup,
}
use gale_lb.Routing.Ring.Invariant.{new_ring-IsOrdered, add_node-IsOrdered}

-- `newRing`, then `addNode` for each node of the list, the last one first.
unfoldable pub add_all : Ring → List AddrKey → Ring
add_all r [] = r
add_all r (node ∷ nodes) = add_node (add_all r nodes) node

pub add_all-IsOrdered :
    (r : Ring) (nodes : List AddrKey) → IsOrdered r → IsOrdered (add_all r nodes)
unfolding add_all
add_all-IsOrdered r [] v = v
add_all-IsOrdered r (node ∷ nodes) v =
    add_node-IsOrdered (add_all r nodes) node (add_all-IsOrdered r nodes v)

pub add_all-hasher :
    (r : Ring) (nodes : List AddrKey)
    → ((add_all r nodes).hasher ≡ r.hasher)
      × ((add_all r nodes).num_virtual_nodes ≡ r.num_virtual_nodes)
unfolding add_all
add_all-hasher r [] = (refl, refl)
add_all-hasher r (node ∷ nodes) =
    let (h, n) = add_all-hasher r nodes in
    let (h', n') = add_node-hasher (add_all r nodes) node in (h' ∙ h, n' ∙ n)

-- The hash `h` lies behind every point, and the point 0 has no owner.
record IsShadowed (h : ℕ) (r : Ring) : Type 0 where
  zero_point : Occurs 0 r.ring
  unowned : lookup 0 r.nodes ≡ none
  below : (q : ℕ) → Occurs q r.ring → q < h

new_ring-IsShadowed : (hasher : Hasher) (n : ℤ) (h : ℕ) → 0 < h → IsShadowed h (new_ring hasher n)
unfolding new_ring lookup
new_ring-IsShadowed hasher n h pos = record {
  zero_point = inl refl;
  unowned = refl;
  below =
      λ q o. subst (λ x. x < h) (sym (Occurs-replicate max_number_virtual_node_entries q 0 o)) pos;
}

-- All virtual nodes of the node lie strictly between 0 and `h`.
abbrev pub HashedBelow : Hasher → ℤ → ℕ → AddrKey → Type 0
HashedBelow hasher n h node =
    (q : ℕ) → Occurs q (virtual_hashes hasher node 0 (rounds n)) → (0 < q) × (q < h)

add_node-IsShadowed :
    (r : Ring) (node : AddrKey) (h : ℕ)
    → IsShadowed h r
    → HashedBelow r.hasher r.num_virtual_nodes h node
    → IsShadowed h (add_node r node)
add_node-IsShadowed r node h s b = record {
  zero_point = (add_node-Occurs r node 0).1 (inl s.zero_point);
  unowned = elim (Bool-cases (contains 0 (hashes_of r node))) [
    | inl own ↦ absurd (omega (arith, b 0 ((contains_iff 0 _).0 own)))
    | inr other ↦ rw (add_node-lookup, other) s.unowned
  ];
  below = λ q o. elim ((add_node-Occurs r node q).0 o) [
    | inl old ↦ s.below q old
    | inr own ↦ (b q own).1
  ];
}

add_all-IsShadowed :
    (r : Ring) (nodes : List AddrKey) (h : ℕ)
    → IsShadowed h r
    → All (HashedBelow r.hasher r.num_virtual_nodes h) nodes
    → IsShadowed h (add_all r nodes)
unfolding add_all
add_all-IsShadowed r [] h s b = s
add_all-IsShadowed r (node ∷ nodes) h s (b, bs) =
    let (same, count) = add_all-hasher r nodes in
    add_node-IsShadowed (add_all r nodes) node h (add_all-IsShadowed r nodes h s bs)
      (subst₂ (λ f n. HashedBelow f n h node) (sym same) (sym count) b)

IsShadowed-get_node :
    (r : Ring) (key : Str)
    → IsOrdered r
    → IsShadowed (r.hasher key) r
    → get_node r key ≡ some (addr_to_string zero_addr)
unfolding owner
IsShadowed-get_node r key v s =
    let (p, near, found) = get_node-IsNearest r key v (λ nil. subst (Occurs 0) nil s.zero_point) in
    let start : IsNearest (r.hasher key) 0 r.ring = record {
      on_ring = s.zero_point;
      nearest = λ q o. omega (arith, s.below q o, v.hashes_fit key);
    } in
    let first = IsNearest-unique (r.hasher key) p 0 r.ring (v.hashes_fit key) v.fits near start in
    found
    ∙ ap (λ x. some (addr_to_string (owner r x))) first
    ∙ ap (λ o. some (addr_to_string o)) (rw (s.unowned, owner))

module _ (hasher : Hasher) (n : ℤ) (nodes : List AddrKey) where
  added_hasher : (add_all (new_ring hasher n) nodes).hasher ≡ hasher
  unfolding new_ring
  added_hasher = (add_all-hasher (new_ring hasher n) nodes).0

  new_add_all-IsShadowed :
      (h : ℕ)
      → 0 < h
      → All (HashedBelow hasher n h) nodes
      → IsShadowed h (add_all (new_ring hasher n) nodes)
  unfolding new_ring
  new_add_all-IsShadowed h pos =
      add_all-IsShadowed (new_ring hasher n) nodes h (new_ring-IsShadowed hasher n h pos)

-- For a hash function into the numbers below 2 ^ 32, after any number of calls of `addNode` on a
-- new ring: a request whose hash is not 0 and lies behind all virtual nodes (see `HashedBelow`) is
-- sent to the address "0:0".
pub get_node-add_all_misroutes :
    (hasher : Hasher) (n : ℤ) (nodes : List AddrKey) (key : Str)
    → ((s : Str) → hasher s < u32_mod)
    → 0 < hasher key
    → All (HashedBelow hasher n (hasher key)) nodes
    → get_node (add_all (new_ring hasher n) nodes) key ≡ some (codes "0:0")
unfolding addr_to_string
get_node-add_all_misroutes hasher n nodes key fits pos b =
    IsShadowed-get_node r key
      (add_all-IsOrdered (new_ring hasher n) nodes (new_ring-IsOrdered hasher n fits))
      (subst (λ (f : Hasher). IsShadowed (f key) r) (sym (added_hasher hasher n nodes))
        (new_add_all-IsShadowed hasher n nodes (hasher key) pos b))
  where
    r : Ring
    r = add_all (new_ring hasher n) nodes
