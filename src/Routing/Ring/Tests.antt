-- ===== src/Routing/Ring/Tests.antt =====
-- Runs of ring.go on small rings, and its theorems at concrete inputs.
use gale_lb.Prelude.{ℕ, ◌+◌, ◌%◌, ◌<◌, ◌≡◌, ◌≢◌, ◌⊎◌, refl, some, List, [], ◌∷◌, arith, Occurs}
use gale_lb.Prelude.Int.{pos}
use gale_lb.Prelude.Equality.{nat_eq}
use gale_lb.Prelude.Map.{lookup, insert, keys, Occurs-keys_iff}
use gale_lb.Prelude.Sorting.{sort}
use gale_lb.Prelude.Search.{search}
use gale_lb.Prelude.Text.{Str, codes}
use gale_lb.Routing.Label.{AddrKey, addr_to_string, virtual_label}
use gale_lb.Routing.Ring.{Ring, new_ring, virtual_hashes, owner, get_node, add_node, remove_node}
use gale_lb.Routing.Ring.Clockwise.{u32_mod, IsNearest}
use gale_lb.Routing.Ring.Nearest.{IsOrdered, get_node-IsNearest}
use gale_lb.Routing.Ring.Members.{hashes_of}
use gale_lb.Routing.Ring.Invariant.{IsIndexed}
use gale_lb.Routing.Ring.Disruption.{Owns, add_node_disruption, remove_node_disruption}
use gale_lb.Routing.Ring.History.{Op, adds, removes}
use mathlib.Core.List.Perm
use gale_lb.Routing.Ring.AnyOrder.{get_node-add_all_any_order}
use gale_lb.Routing.Ring.RoundTrip.{remove_node-add_node}
use gale_lb.Routing.Ring.Filler.{HashedBelow, add_all, get_node-add_all_misroutes}

-- A hash that adds up the bytes, from 1 on.
unfoldable pub byte_sum : Str → ℕ
byte_sum [] = 1
byte_sum (c ∷ s) = (c + byte_sum s) % u32_mod

pub byte_sum_fits : (s : Str) → byte_sum s < u32_mod
unfolding byte_sum
byte_sum_fits [] = omega arith
byte_sum_fits (c ∷ s) = omega arith

abbrev pub first : AddrKey
first = record { ip = 1; port = 80; pad = 0 }

abbrev pub second : AddrKey
second = record { ip = 22; port = 80; pad = 0 }

-- One node with the points 305 and 306.
abbrev small : Ring
small = record {
  ring = 305 ∷ 306 ∷ [];
  nodes = (305, first) ∷ (306, first) ∷ [];
  num_virtual_nodes = pos 2;
  hasher = byte_sum;
}

small_hashes : hashes_of small first ≡ 305 ∷ 306 ∷ []
unfolding virtual_hashes virtual_label byte_sum
small_hashes = refl

second_hashes : hashes_of small second ≡ 356 ∷ 357 ∷ []
unfolding virtual_hashes virtual_label byte_sum
second_hashes = refl

grown_ring : (add_node small second).ring ≡ 305 ∷ 306 ∷ 356 ∷ 357 ∷ []
unfolding add_node virtual_label byte_sum sort insert
grown_ring = refl

small-IsOrdered : IsOrdered small
unfolding keys
small-IsOrdered = record {
  sorted = omega arith;
  fits = omega arith;
  keys_fit = omega arith;
  hashes_fit = byte_sum_fits;
}

get_node-IsNearest_example :
    (p : ℕ) × IsNearest (byte_sum (codes "k")) p small.ring
    × (get_node small (codes "k") ≡ some (addr_to_string (owner small p)))
get_node-IsNearest_example = get_node-IsNearest small (codes "k") small-IsOrdered (cc)

add_node_disruption_example :
    (get_node (add_node small second) (codes "k") ≡ get_node small (codes "k"))
    ⊎ (get_node (add_node small second) (codes "k") ≡ some (addr_to_string second))
add_node_disruption_example = add_node_disruption small second (codes "k") small-IsOrdered

small-IsIndexed : IsIndexed small
unfolding keys
small-IsIndexed q = Occurs-keys_iff q small.nodes

-- Both nodes; the request "zzi" has the hash 350.
abbrev pair : Ring
pair = record small {
  ring = 305 ∷ 306 ∷ 356 ∷ 357 ∷ [];
  nodes = (305, first) ∷ (306, first) ∷ (356, second) ∷ (357, second) ∷ [];
}

pair-IsOrdered : IsOrdered pair
unfolding keys
pair-IsOrdered = record {
  sorted = omega arith;
  fits = omega arith;
  keys_fit = omega arith;
  hashes_fit = byte_sum_fits;
}

pair-IsIndexed : IsIndexed pair
unfolding keys
pair-IsIndexed q = Occurs-keys_iff q pair.nodes

first-Owns : Owns pair first
unfolding virtual_hashes virtual_label byte_sum lookup
first-Owns q o = ground arith

served_by_second : get_node pair (codes "zzi") ≡ some (codes "22:80")
unfolding get_node byte_sum search lookup addr_to_string
served_by_second = refl

not_served_by_first : get_node pair (codes "zzi") ≢ some (addr_to_string first)
unfolding get_node byte_sum search lookup addr_to_string
not_served_by_first e = cc

remove_node_disruption_example :
    get_node (remove_node pair first) (codes "zzi") ≡ get_node pair (codes "zzi")
remove_node_disruption_example =
    remove_node_disruption pair first pair-IsOrdered pair-IsIndexed (codes "zzi") first-Owns
      not_served_by_first

second_fresh : (q : ℕ) → Occurs q (hashes_of small second) → ¬ Occurs q small.ring
unfolding virtual_hashes virtual_label byte_sum
second_fresh q o b = omega arith

remove_node-add_node_example :
    get_node (remove_node (add_node small second) second) (codes "k") ≡ get_node small (codes "k")
remove_node-add_node_example =
    remove_node-add_node small second (codes "k") small-IsOrdered small-IsIndexed second_fresh

abbrev third : AddrKey
third = record { ip = 4444; port = 80; pad = 0 }

nodes_apart : (q : ℕ) → Occurs q (hashes_of small second) → ¬ Occurs q (hashes_of small third)
unfolding virtual_hashes virtual_label byte_sum
nodes_apart q o b = omega arith

get_node-add_all_any_order_example :
    get_node (add_all small (third ∷ second ∷ [])) (codes "k")
    ≡ get_node (add_all small (second ∷ third ∷ [])) (codes "k")
get_node-add_all_any_order_example =
    get_node-add_all_any_order small (second ∷ third ∷ []) (third ∷ second ∷ []) (codes "k")
      (Perm.swap third second []) ((nodes_apart, tt), (tt, tt)) small-IsOrdered

-- The first node left, the second came.
abbrev pub swapped : List Op
swapped = adds second ∷ removes first ∷ adds first ∷ []

first_below : HashedBelow byte_sum (pos 2) (byte_sum (codes "zzz~")) first
unfolding virtual_hashes virtual_label byte_sum
first_below q o = omega arith

second_below : HashedBelow byte_sum (pos 2) (byte_sum (codes "zzz~")) second
unfolding virtual_hashes virtual_label byte_sum
second_below q o = omega arith

behind_start : 0 < byte_sum (codes "zzz~")
unfolding byte_sum
behind_start = omega arith

-- The request "zzz~" has the hash 493.
get_node-add_all_misroutes_example :
    get_node (add_all (new_ring byte_sum (pos 2)) (first ∷ second ∷ [])) (codes "zzz~")
    ≡ some (codes "0:0")
get_node-add_all_misroutes_example =
    get_node-add_all_misroutes byte_sum (pos 2) (first ∷ second ∷ []) (codes "zzz~") byte_sum_fits
      behind_start (first_below, (second_below, tt))
