-- ===== src/Routing/Ring/Members.antt =====
-- Which points the ring holds after an operation, and to whom the map gives them.
use mathlib.Core.Path.{subst}
use mathlib.Core.List.{append-nil, append_assoc}
use gale_lb.Prelude.{
  ℕ, zero, suc, ◌+◌, ◌≡◌, ◌↔◌, ◌⊎◌, refl, sym, ◌∙◌, inl, inr, none, some, List, [], ◌∷◌, ◌++◌,
  arith, true, false, nat_beq, if◌then◌else◌, Bool, ◌||◌, Occurs, Occurs-append_left,
  Occurs-append_right, Occurs-append_cases,
}
use gale_lb.Prelude.Equality.{nat_eq}
use gale_lb.Prelude.Map.{lookup, lookup-insert, lookup-delete, Occurs-keys_iff}
use gale_lb.Prelude.Sorting.{sort-Occurs}
use gale_lb.Routing.Label.{AddrKey, virtual_label}
use gale_lb.Routing.Ring.{
  Ring, rounds, virtual_hashes, add_virtual, add_node, remove_virtual, remove_node,
}

-- The hashes of the virtual nodes of `node`, on the ring `r`.
abbrev pub hashes_of : Ring → AddrKey → List ℕ
hashes_of r node = virtual_hashes r.hasher node 0 (rounds r.num_virtual_nodes)

-- Boolean membership, to state what the map holds.
unfoldable pub contains : ℕ → List ℕ → Bool
contains q [] = false
contains q (x ∷ xs) = nat_beq x q || contains q xs

pub contains_iff : (q : ℕ) (xs : List ℕ) → (contains q xs ≡ true) ↔ Occurs q xs
unfolding contains
contains_iff q [] = ground arith
contains_iff q (x ∷ xs) = ground (arith, contains_iff q xs)

-- The loop of `addNode` appends the hashes and changes nothing else of the ring.
add_virtual-ring :
    (node : AddrKey) (i count : ℕ) (r : Ring)
    → (add_virtual node i count r).ring ≡ r.ring ++ virtual_hashes r.hasher node i count
unfolding add_virtual virtual_hashes
add_virtual-ring node i zero r = sym (append-nil r.ring)
add_virtual-ring node i (suc count) r =
    add_virtual-ring node (i + 1) count _
    ∙ append_assoc r.ring (r.hasher (virtual_label node i) ∷ []) _

pub add_virtual-hasher :
    (node : AddrKey) (i count : ℕ) (r : Ring)
    → ((add_virtual node i count r).hasher ≡ r.hasher)
      × ((add_virtual node i count r).num_virtual_nodes ≡ r.num_virtual_nodes)
unfolding add_virtual
add_virtual-hasher node i zero r = (refl, refl)
add_virtual-hasher node i (suc count) r = add_virtual-hasher node (i + 1) count _

add_virtual-nodes :
    (node : AddrKey) (i count : ℕ) (r : Ring) (q : ℕ)
    → lookup q (add_virtual node i count r).nodes
      ≡ (if contains q (virtual_hashes r.hasher node i count) then some node else lookup q r.nodes)
unfolding add_virtual virtual_hashes contains
add_virtual-nodes node i zero r q = refl
add_virtual-nodes node i (suc count) r q =
    add_virtual-nodes node (i + 1) count _ q
    ∙ ground (arith, lookup-insert (r.hasher (virtual_label node i)) q node r.nodes)

pub add_node-hasher :
    (r : Ring) (node : AddrKey)
    → ((add_node r node).hasher ≡ r.hasher)
      × ((add_node r node).num_virtual_nodes ≡ r.num_virtual_nodes)
unfolding add_node
add_node-hasher r node = add_virtual-hasher node 0 (rounds r.num_virtual_nodes) r

-- `addNode` adds the virtual nodes' hashes to the points of the ring.
pub add_node-Occurs :
    (r : Ring) (node : AddrKey) (q : ℕ)
    → Occurs q (add_node r node).ring ↔ (Occurs q r.ring ⊎ Occurs q (hashes_of r node))
unfolding add_node
add_node-Occurs r node q = (
  λ o. Occurs-append_cases q r.ring _ (
      subst (Occurs q) (add_virtual-ring node 0 (rounds r.num_virtual_nodes) r)
        ((sort-Occurs q _).0 o)),
  λ o. (sort-Occurs q _).1 (
      subst (Occurs q) (sym (add_virtual-ring node 0 (rounds r.num_virtual_nodes) r)) (elim o [
        | inl l ↦ Occurs-append_left q r.ring _ l
        | inr h ↦ Occurs-append_right q r.ring _ h
      ])),
)

-- Its hashes belong to the node that was added, the others to whom they did.
pub add_node-lookup :
    (r : Ring) (node : AddrKey) (q : ℕ)
    → lookup q (add_node r node).nodes
      ≡ (if contains q (hashes_of r node) then some node else lookup q r.nodes)
unfolding add_node
add_node-lookup r node q = add_virtual-nodes node 0 (rounds r.num_virtual_nodes) r q

remove_virtual-nodes :
    (node : AddrKey) (i count : ℕ) (r : Ring) (q : ℕ)
    → lookup q (remove_virtual node i count r).nodes
      ≡ (if contains q (virtual_hashes r.hasher node i count) then none else lookup q r.nodes)
unfolding remove_virtual virtual_hashes contains
remove_virtual-nodes node i zero r q = refl
remove_virtual-nodes node i (suc count) r q =
    remove_virtual-nodes node (i + 1) count _ q
    ∙ ground (arith, lookup-delete (r.hasher (virtual_label node i)) q r.nodes)

remove_virtual-hasher :
    (node : AddrKey) (i count : ℕ) (r : Ring)
    → ((remove_virtual node i count r).hasher ≡ r.hasher)
      × ((remove_virtual node i count r).num_virtual_nodes ≡ r.num_virtual_nodes)
unfolding remove_virtual
remove_virtual-hasher node i zero r = (refl, refl)
remove_virtual-hasher node i (suc count) r = remove_virtual-hasher node (i + 1) count _

pub remove_node-hasher :
    (r : Ring) (node : AddrKey)
    → ((remove_node r node).hasher ≡ r.hasher)
      × ((remove_node r node).num_virtual_nodes ≡ r.num_virtual_nodes)
unfolding remove_node
remove_node-hasher r node = remove_virtual-hasher node 0 (rounds r.num_virtual_nodes) r

-- `removeNode` takes the hashes of the node out of the map, whoever they belong to.
pub remove_node-lookup :
    (r : Ring) (node : AddrKey) (q : ℕ)
    → lookup q (remove_node r node).nodes
      ≡ (if contains q (hashes_of r node) then none else lookup q r.nodes)
unfolding remove_node
remove_node-lookup r node q = remove_virtual-nodes node 0 (rounds r.num_virtual_nodes) r q

-- The ring is then made of the keys that are left.
pub remove_node-Occurs :
    (r : Ring) (node : AddrKey) (q : ℕ)
    → Occurs q (remove_node r node).ring
      ↔ ((v : AddrKey) × (lookup q (remove_node r node).nodes ≡ some v))
unfolding remove_node
remove_node-Occurs r node q = (
  λ o. (Occurs-keys_iff q _).0 ((sort-Occurs q _).0 o),
  λ s. (sort-Occurs q _).1 ((Occurs-keys_iff q _).1 s),
)
