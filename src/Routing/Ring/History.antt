-- ===== src/Routing/Ring/History.antt =====
-- Rings that arise from `newRing` by any sequence of `addNode` and `removeNode`.
use mathlib.Core.Path.{subst}
use mathlib.Core.List.{Perm}
use gale_lb.Prelude.{
  ℕ, ◌<◌, ◌≡◌, ◌≢◌, ◌⊎◌, refl, sym, ◌∙◌, inl, inr, none, some, List, [], ◌∷◌, arith, Bool-cases,
  Option-cases, Occurs,
}
use gale_lb.Prelude.Int.{ℤ}
use gale_lb.Prelude.Equality.{nat_eq}
use gale_lb.Prelude.Map.{lookup, keys}
use gale_lb.Prelude.Sorting.{sort, sort-perm}
use gale_lb.Prelude.Text.{Str}
use gale_lb.Routing.Label.{AddrKey, addr_to_string}
use gale_lb.Routing.Ring.{
  Ring, Hasher, new_ring, rounds, virtual_hashes, point_of, get_node, add_node, remove_node,
}
use gale_lb.Routing.Ring.Clockwise.{u32_mod}
use gale_lb.Routing.Ring.Nearest.{IsOrdered, get_node-point_of}
use gale_lb.Routing.Ring.Members.{
  hashes_of, contains, contains_iff, add_node-hasher, add_node-lookup, remove_node-hasher,
  remove_node-lookup,
}
use gale_lb.Routing.Ring.Invariant.{
  IsIndexed, new_ring-IsOrdered, add_node-IsOrdered, remove_node-IsOrdered, remove_node-IsIndexed,
  add_node-IsIndexed,
}
use gale_lb.Routing.Ring.Disruption.{point_of-on_ring, get_node-none, owner-lookup}

pub data Op : Type 0 where
  adds removes : AddrKey → Op

unfoldable pub apply : Op → Ring → Ring
apply (adds node) r = add_node r node
apply (removes node) r = remove_node r node

-- The latest call stands first.
unfoldable pub run : List Op → Ring → Ring
unfolding apply
run [] r = r
run (op ∷ earlier) r = apply op (run earlier r)

-- The nodes that were added, and not removed since.
abbrev pub IsMember : AddrKey → List Op → Type 0
IsMember w [] = ⊥
IsMember w (adds node ∷ earlier) = (w ≡ node) ⊎ IsMember w earlier
IsMember w (removes node ∷ earlier) = (w ≢ node) × IsMember w earlier

pub run-hasher :
    (ops : List Op) (r : Ring)
    → ((run ops r).hasher ≡ r.hasher) × ((run ops r).num_virtual_nodes ≡ r.num_virtual_nodes)
unfolding run
run-hasher [] r = (refl, refl)
run-hasher (adds node ∷ ops) r =
    let (h, n) = run-hasher ops r in
    let (h', n') = add_node-hasher (run ops r) node in (h' ∙ h, n' ∙ n)
run-hasher (removes node ∷ ops) r =
    let (h, n) = run-hasher ops r in
    let (h', n') = remove_node-hasher (run ops r) node in (h' ∙ h, n' ∙ n)

pub run-hashes_of :
    (ops : List Op) (r : Ring) (w : AddrKey) → hashes_of (run ops r) w ≡ hashes_of r w
run-hashes_of ops r w =
    let (h, n) = run-hasher ops r in λ i. virtual_hashes (h i) w 0 (rounds (n i))

-- Calls of `addNode` and `removeNode`, in any number and order, keep the points of an ordered ring in
-- ascending order and, like the keys of its map, below 2 ^ 32.
pub run-IsOrdered : (ops : List Op) (r : Ring) → IsOrdered r → IsOrdered (run ops r)
unfolding run
run-IsOrdered [] r v = v
run-IsOrdered (adds node ∷ ops) r v = add_node-IsOrdered (run ops r) node (run-IsOrdered ops r v)
run-IsOrdered (removes node ∷ ops) r v =
    remove_node-IsOrdered (run ops r) node (run-IsOrdered ops r v)

-- A call of `removeNode` anywhere in the history makes points and keys agree for good.
abbrev pub HasRemoval : List Op → Type 0
HasRemoval [] = ⊥
HasRemoval (adds node ∷ earlier) = HasRemoval earlier
HasRemoval (removes node ∷ earlier) = Unit

pub run-IsIndexed : (ops : List Op) (r : Ring) → HasRemoval ops → IsIndexed (run ops r)
unfolding run
run-IsIndexed [] r h = absurd h
run-IsIndexed (adds node ∷ ops) r h = add_node-IsIndexed (run ops r) node (run-IsIndexed ops r h)
run-IsIndexed (removes node ∷ ops) r h = remove_node-IsIndexed (run ops r) node

module _ (hasher : Hasher) (n : ℤ) where
  pub hashed :
      (ops : List Op) (w : AddrKey) (q : ℕ)
      → Occurs q (hashes_of (run ops (new_ring hasher n)) w)
      → Occurs q (virtual_hashes hasher w 0 (rounds n))
  unfolding new_ring
  hashed ops w q = subst (Occurs q) (run-hashes_of ops (new_ring hasher n) w)

  pub hashed_back :
      (ops : List Op) (w : AddrKey) (q : ℕ)
      → Occurs q (virtual_hashes hasher w 0 (rounds n))
      → Occurs q (hashes_of (run ops (new_ring hasher n)) w)
  unfolding new_ring
  hashed_back ops w q = subst (Occurs q) (sym (run-hashes_of ops (new_ring hasher n) w))

  -- An entry of the map names a member, under one of the member's own hashes.
  pub entry-IsMember :
      (ops : List Op) (q : ℕ) (w : AddrKey)
      → lookup q (run ops (new_ring hasher n)).nodes ≡ some w
      → IsMember w ops × Occurs q (virtual_hashes hasher w 0 (rounds n))
  unfolding run
  entry-IsMember [] q w e = absurd (empty q w e)
    where
      empty : (q : ℕ) (w : AddrKey) → ¬ (lookup q (new_ring hasher n).nodes ≡ some w)
      empty q w e = unfold new_ring lookup in cc
  entry-IsMember (adds node ∷ ops) q w e =
      elim (Bool-cases (contains q (hashes_of (run ops (new_ring hasher n)) node))) [
        | inl own ↦
            let same : node ≡ w =
              ground (arith, add_node-lookup (run ops (new_ring hasher n)) node q) in
            (
              inl (sym same),
              subst (λ a. Occurs q (virtual_hashes hasher a 0 (rounds n))) same
                  (hashed ops node q ((contains_iff q _).0 own)),
            )
        | inr old ↦
            let (m, o) =
              entry-IsMember ops q w
                (ground (arith, add_node-lookup (run ops (new_ring hasher n)) node q)) in
            (inr m, o)
      ]
  entry-IsMember (removes node ∷ ops) q w e =
      elim (Bool-cases (contains q (hashes_of (run ops (new_ring hasher n)) node))) [
        | inl own ↦ absurd (ground (arith, remove_node-lookup (run ops (new_ring hasher n)) node q))
        | inr other ↦
            let (m, o) =
              entry-IsMember ops q w
                (ground (arith, remove_node-lookup (run ops (new_ring hasher n)) node q)) in
            (
              (
                λ same. absurd (
                    ground (
                      arith,
                      (contains_iff q _).1 (
                          subst (λ a. Occurs q (hashes_of (run ops (new_ring hasher n)) a)) same
                            (hashed_back ops w q o)),
                    )),
                m,
              ),
              o,
            )
      ]

  -- For a hash function into the numbers below 2 ^ 32, and a history from a new ring in which
  -- `removeNode` was called at least once: the text that a lookup answers with, if it answers, is
  -- that of a node that was added and not removed since.
  get_node-IsMember :
      (ops : List Op) (key : Str) {t : Str}
      → ((s : Str) → hasher s < u32_mod)
      → HasRemoval ops
      → get_node (run ops (new_ring hasher n)) key ≡ some t
      → (w : AddrKey) × IsMember w ops × (t ≡ addr_to_string w)
  get_node-IsMember ops key {t} fits removal e = elim (Option-cases (point_of r key)) [
    | inl missing ↦ absurd (none_some (sym (get_node-none r key missing) ∙ e))
    | inr (p, found) ↦
        let (w, at) = (run-IsIndexed ops (new_ring hasher n) removal p).0 (
          point_of-on_ring r key p (run-IsOrdered ops _ (new_ring-IsOrdered hasher n fits))
            found) in
        (
          w,
          (entry-IsMember ops p w at).0,
          ground (arith, get_node-point_of r key found, owner-lookup r p w at),
        )
  ]
    where
      r : Ring
      r = run ops (new_ring hasher n)

      none_some : {s : Str} → ¬ (none ≡ some s)
      none_some h = cc

-- In whatever order `removeNode` meets the keys that are left in the map, sorting them gives the
-- ring that it leaves.
remove_node_any_order :
    (r : Ring) (node : AddrKey) (order : List ℕ)
    → Perm order (keys (remove_node r node).nodes)
    → (remove_node r node).ring ≡ sort order
unfolding remove_node
remove_node_any_order r node order p = sym (sort-perm p)
