-- ===== src/Routing/Ring/Invariant.antt =====
-- The operations of ring.go keep the ring ascending; once a node was removed, and from then on, its
-- points are exactly the keys of the map.
use mathlib.Core.Path.{subst}
use gale_lb.Prelude.{
  ℕ, zero, suc, ◌+◌, ◌≤◌, ◌<◌, ◌≡◌, replicate, All-replicate, ◌↔◌, sym, inl, inr, some, arith,
  Bool-cases, Occurs, All_at, All-of_Occurs,
}
use gale_lb.Prelude.Int.{ℤ}
use gale_lb.Prelude.Equality.{nat_eq}
use gale_lb.Prelude.Map.{lookup, keys, Occurs-keys_iff}
use gale_lb.Prelude.Sorting.{sort-IsSorted, IsSorted}
use gale_lb.Prelude.Text.{Str}
use gale_lb.Routing.Label.{AddrKey, virtual_label}
use gale_lb.Routing.Ring.{
  Ring, Hasher, new_ring, rounds, virtual_hashes, add_node, remove_node,
  max_number_virtual_node_entries,
}
use gale_lb.Routing.Ring.Clockwise.{u32_mod}
use gale_lb.Routing.Ring.Nearest.{IsOrdered}
use gale_lb.Routing.Ring.Members.{
  hashes_of, contains, contains_iff, add_node-hasher, add_node-Occurs, add_node-lookup,
  remove_node-hasher, remove_node-lookup, remove_node-Occurs,
}

replicate-IsSorted : (n : ℕ) → IsSorted (replicate n 0)
replicate-IsSorted zero = tt
replicate-IsSorted (suc n) = (All-replicate (λ y. 0 ≤ y) n 0 (omega arith), replicate-IsSorted n)

-- A new ring is ascending.
pub new_ring-IsOrdered :
    (hasher : Hasher) (n : ℤ) → ((s : Str) → hasher s < u32_mod) → IsOrdered (new_ring hasher n)
unfolding new_ring keys
new_ring-IsOrdered hasher n fits = record {
  sorted = replicate-IsSorted max_number_virtual_node_entries;
  fits = All-replicate (λ h. h < u32_mod) max_number_virtual_node_entries 0 (omega arith);
  keys_fit = tt;
  hashes_fit = fits;
}

virtual_hashes-fit :
    (hasher : Hasher) (node : AddrKey) (i count q : ℕ)
    → ((s : Str) → hasher s < u32_mod)
    → Occurs q (virtual_hashes hasher node i count)
    → q < u32_mod
unfolding virtual_hashes
virtual_hashes-fit hasher node i zero q fits o = absurd o
virtual_hashes-fit hasher node i (suc count) q fits (inl e) =
    subst (λ x. x < u32_mod) (sym e) (fits (virtual_label node i))
virtual_hashes-fit hasher node i (suc count) q fits (inr o) =
    virtual_hashes-fit hasher node (i + 1) count q fits o

module _ (r : Ring) (node : AddrKey) (v : IsOrdered r) where
  hash_fits : (q : ℕ) → Occurs q (hashes_of r node) → q < u32_mod
  hash_fits q = virtual_hashes-fit r.hasher node 0 (rounds r.num_virtual_nodes) q v.hashes_fit

  key_fits : (q : ℕ) {w : AddrKey} → lookup q r.nodes ≡ some w → q < u32_mod
  key_fits q {w} e =
      All_at (λ x. x < u32_mod) (keys r.nodes) q v.keys_fit ((Occurs-keys_iff q r.nodes).1 (w, e))

  added_key_fits : (q : ℕ) → Occurs q (keys (add_node r node).nodes) → q < u32_mod
  added_key_fits q o =
      let (w, e) = (Occurs-keys_iff q (add_node r node).nodes).0 o in
      elim (Bool-cases (contains q (hashes_of r node))) [
        | inl own ↦ hash_fits q ((contains_iff q _).0 own)
        | inr old ↦ key_fits q {w = w} (ground (arith, add_node-lookup r node q))
      ]

  removed_key_fits :
      (q : ℕ) {w : AddrKey} → lookup q (remove_node r node).nodes ≡ some w → q < u32_mod
  removed_key_fits q {w} e = key_fits q {w = w} (ground (arith, remove_node-lookup r node q))

  -- `addNode` keeps the ring ascending and all of it in the range of a uint32.
  pub add_node-IsOrdered : IsOrdered (add_node r node)
  add_node-IsOrdered = record {
    sorted = add_node-IsSorted;
    fits = All-of_Occurs _ (add_node r node).ring (λ q o. elim ((add_node-Occurs r node q).0 o) [
      | inl old ↦ All_at (λ h. h < u32_mod) r.ring q v.fits old
      | inr own ↦ hash_fits q own
    ]);
    keys_fit = All-of_Occurs _ (keys (add_node r node).nodes) added_key_fits;
    hashes_fit =
        subst (λ (h : Hasher). (s : Str) → h s < u32_mod) (sym (add_node-hasher r node).0)
          v.hashes_fit;
  }
    where
      add_node-IsSorted : IsSorted (add_node r node).ring
      add_node-IsSorted = unfold add_node in sort-IsSorted _

  -- So does `removeNode`.
  pub remove_node-IsOrdered : IsOrdered (remove_node r node)
  remove_node-IsOrdered = record {
    sorted = remove_node-IsSorted;
    fits =
        All-of_Occurs _ (remove_node r node).ring
          (λ q o. let (w, e) = (remove_node-Occurs r node q).0 o in removed_key_fits q {w = w} e);
    keys_fit = All-of_Occurs _ (keys (remove_node r node).nodes) (λ q o.
        let (w, e) = (Occurs-keys_iff q (remove_node r node).nodes).0 o in
        removed_key_fits q {w = w} e);
    hashes_fit =
        subst (λ (h : Hasher). (s : Str) → h s < u32_mod) (sym (remove_node-hasher r node).0)
          v.hashes_fit;
  }
    where
      remove_node-IsSorted : IsSorted (remove_node r node).ring
      remove_node-IsSorted = unfold remove_node in sort-IsSorted _

-- Every point of the ring has an owner, and every key of the map is a point of the ring.
abbrev pub IsIndexed : Ring → Type 0
IsIndexed r = (q : ℕ) → Occurs q r.ring ↔ ((w : AddrKey) × (lookup q r.nodes ≡ some w))

-- `removeNode` makes points and keys agree, whatever the ring was.
pub remove_node-IsIndexed : (r : Ring) (node : AddrKey) → IsIndexed (remove_node r node)
remove_node-IsIndexed r node q = remove_node-Occurs r node q

-- If the points of a ring are exactly the keys of its map, that is still so after `addNode`.
pub add_node-IsIndexed : (r : Ring) (node : AddrKey) → IsIndexed r → IsIndexed (add_node r node)
add_node-IsIndexed r node agree q = (to_key, to_point)
  where
    to_key :
        Occurs q (add_node r node).ring
        → (w : AddrKey) × (lookup q (add_node r node).nodes ≡ some w)
    to_key o = elim (Bool-cases (contains q (hashes_of r node))) [
      | inl own ↦ (node, rw (add_node-lookup, own))
      | inr other ↦ elim ((add_node-Occurs r node q).0 o) [
        | inl old ↦ let (w, e) = (agree q).0 old in (w, rw (add_node-lookup, other) e)
        | inr h ↦ absurd (ground (arith, (contains_iff q (hashes_of r node)).1 h))
      ]
    ]

    to_point :
        (w : AddrKey) × (lookup q (add_node r node).nodes ≡ some w)
        → Occurs q (add_node r node).ring
    to_point (w, e) = elim (Bool-cases (contains q (hashes_of r node))) [
      | inl own ↦ (add_node-Occurs r node q).1 (inr ((contains_iff q _).0 own))
      | inr other ↦
          (add_node-Occurs r node q).1
            (inl ((agree q).1 (w, ground (arith, add_node-lookup r node q))))
    ]
