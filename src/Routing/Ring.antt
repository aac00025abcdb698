-- ===== src/Routing/Ring.antt =====
-- pkg/routing/ring.go. Each operation holds the ring's lock from its first line to its last, so it
-- is one function of the whole state. A hash stands for a uint32.
pub mod Clockwise
pub mod Nearest
pub mod Members
pub mod Invariant
pub mod Disruption
pub mod History
pub mod Agreement
pub mod RoundTrip
pub mod AnyOrder
pub mod Filler
pub mod Ideal
mod Tests
use gale_lb.Prelude.{
  ℕ, zero, suc, ◌+◌, Bool, Option, none, some, List, [], ◌∷◌, ◌++◌, leb, nat_beq, if◌then◌else◌,
  length, get_elem?, replicate,
}
use gale_lb.Prelude.Int.{ℤ, pos, negsuc}
use gale_lb.Prelude.Equality.{nat_eq}
use gale_lb.Prelude.Map.{Map, lookup, insert, delete, keys}
use gale_lb.Prelude.Text.{Str}
use gale_lb.Prelude.Sorting.{sort}
use gale_lb.Prelude.Search.{search}
use gale_lb.Routing.Label.{AddrKey, zero_addr, addr_to_string, virtual_label}

-- `type Hasher func([]byte) uint32`
abbrev pub Hasher : Type 0
Hasher = Str → ℕ

-- C.MAX_NUMBER_VIRTUAL_NODE_ENTRIES
abbrev pub max_number_virtual_node_entries : ℕ
max_number_virtual_node_entries = 8192

pub record Ring : Type 0 where
  pub ring : List ℕ
  pub nodes : Map ℕ AddrKey
  pub num_virtual_nodes : ℤ
  pub hasher : Hasher

-- `make([]uint32, n)` holds `n` zeros.
unfoldable pub new_ring : Hasher → ℤ → Ring
new_ring hasher num_virtual_nodes = record {
  ring = replicate max_number_virtual_node_entries 0;
  nodes = [];
  num_virtual_nodes = num_virtual_nodes;
  hasher = hasher;
}

-- `for i := range n` makes no round for a negative `n`.
abbrev pub rounds : ℤ → ℕ
rounds (pos n) = n
rounds (negsuc n) = 0

-- The hashes of the virtual nodes `i`, `i + 1`, …, of which `count` are left.
unfoldable pub virtual_hashes : Hasher → AddrKey → ℕ → ℕ → List ℕ
virtual_hashes hasher node i zero = []
virtual_hashes hasher node i (suc count) =
    hasher (virtual_label node i) ∷ virtual_hashes hasher node (i + 1) count

-- The loop of `addNode`: `count` rounds from `i` on.
unfoldable pub add_virtual : AddrKey → ℕ → ℕ → Ring → Ring
add_virtual node i zero r = r
add_virtual node i (suc count) r =
    let hash = r.hasher (virtual_label node i) in
    add_virtual node (i + 1) count
      (record r { ring = r.ring ++ hash ∷ []; nodes = insert hash node r.nodes })

unfoldable pub add_node : Ring → AddrKey → Ring
unfolding add_virtual
add_node r node =
    let r' = add_virtual node 0 (rounds r.num_virtual_nodes) r in record r' { ring = sort r'.ring }

-- The first loop of `removeNode`.
unfoldable pub remove_virtual : AddrKey → ℕ → ℕ → Ring → Ring
remove_virtual node i zero r = r
remove_virtual node i (suc count) r =
    remove_virtual node (i + 1) count
      (record r { nodes = delete (r.hasher (virtual_label node i)) r.nodes })

unfoldable pub remove_node : Ring → AddrKey → Ring
unfolding remove_virtual
remove_node r node =
    let r' = remove_virtual node 0 (rounds r.num_virtual_nodes) r in
    record r' { ring = sort (keys r'.nodes) }

-- `ch.ring[i] >= hash`; `sort.Search` asks only for indices in range.
unfoldable pub at_least : List ℕ → ℕ → ℕ → Bool
at_least ring hash i = elim (get_elem? ring i) [ none ↦ Bool.false | some h ↦ leb hash h ]

-- `ch.nodes[h]`
unfoldable pub owner : Ring → ℕ → AddrKey
owner r h = elim (lookup h r.nodes) [ none ↦ zero_addr | some node ↦ node ]

-- The point at which `getNode` reads the map; `none` is Go's panic on an index out of range.
unfoldable pub point_of : Ring → Str → Option ℕ
unfolding at_least
point_of r request_key =
    let i = search (length r.ring) (at_least r.ring (r.hasher request_key)) in
    get_elem? r.ring (if nat_beq i (length r.ring) then 0 else i)

unfoldable pub get_node : Ring → Str → Option Str
unfolding point_of owner
get_node r request_key = elim (point_of r request_key) [
  | none ↦ none
  | some h ↦ some (addr_to_string (owner r h))
]
