-- ===== src/Routing/Ring/Ideal.antt =====
-- What a ring of ring.go promises, without a ring: a request belongs to the node of the nearest virtual
-- node among all virtual nodes of the members. The members are read off the history of calls.
pub mod Closest
pub mod Held
pub mod Refinement
mod Tests
use gale_lb.Prelude.{
  ℕ, ◌≡◌, ◌⊎◌, refl, Option, none, some, List, [], ◌∷◌, ◌++◌, Bool, ◌&&◌, leb, nat_beq, arith,
  nat_beq_iff, if◌then◌else◌, Occurs, ◌↔◌,
}
use gale_lb.Prelude.Int.{ℤ}
use gale_lb.Prelude.Equality.{Key, ◌==◌}
use gale_lb.Prelude.Text.{Str}
use gale_lb.Routing.Label.{AddrKey, addr_to_string}
use gale_lb.Routing.Ring.{Hasher, rounds, virtual_hashes}
use gale_lb.Routing.Ring.Clockwise.{distance}
use gale_lb.Routing.Ring.History.{Op, adds, removes}

unfoldable pub addr_beq : AddrKey → AddrKey → Bool
addr_beq a b = nat_beq a.ip b.ip && (nat_beq a.port b.port && nat_beq a.pad b.pad)

pub addr_beq_iff : (a b : AddrKey) → (addr_beq a b ≡ Bool.true) ↔ (a ≡ b)
unfolding addr_beq
addr_beq_iff a b =
    ground (arith, nat_beq_iff a.ip b.ip, nat_beq_iff a.port b.port, nat_beq_iff a.pad b.pad)

instance abbrev pub addr_eq : Key AddrKey
addr_eq = record { same = addr_beq; same_iff = addr_beq_iff }

unfoldable pub without : AddrKey → List AddrKey → List AddrKey
without node [] = []
without node (w ∷ ws) = if w == node then without node ws else w ∷ without node ws

-- The nodes that were added, and not removed since; the latest call of the history stands first.
unfoldable pub members : List Op → List AddrKey
unfolding without
members [] = []
members (adds node ∷ earlier) = node ∷ members earlier
members (removes node ∷ earlier) = without node (members earlier)

unfoldable pub at_hashes : AddrKey → List ℕ → List (ℕ × AddrKey)
at_hashes w [] = []
at_hashes w (q ∷ qs) = (q, w) ∷ at_hashes w qs

-- The virtual nodes of all members, each with its node.
unfoldable pub placed : Hasher → ℤ → List AddrKey → List (ℕ × AddrKey)
unfolding at_hashes
placed hasher n [] = []
placed hasher n (w ∷ ws) = at_hashes w (virtual_hashes hasher w 0 (rounds n)) ++ placed hasher n ws

-- The virtual node that lies nearest behind a hash, clockwise.
unfoldable pub closest : ℕ → List (ℕ × AddrKey) → Option (ℕ × AddrKey)
closest h [] = none
closest h (x ∷ xs) = elim (closest h xs) [
  | none ↦ some x
  | some y ↦ if leb (distance h x.0) (distance h y.0) then some x else some y
]

-- The answer that consistent hashing promises: none without a virtual node, else the nearest one's node.
unfoldable pub route : Hasher → ℤ → List Op → Str → Option Str
unfolding members placed closest
route hasher n ops key = elim (closest (hasher key) (placed hasher n (members ops))) [
  | none ↦ none
  | some x ↦ some (addr_to_string x.1)
]

-- The nodes that a history speaks of.
abbrev pub Named : AddrKey → List Op → Type 0
Named w [] = ⊥
Named w (adds node ∷ earlier) = (w ≡ node) ⊎ Named w earlier
Named w (removes node ∷ earlier) = (w ≡ node) ⊎ Named w earlier

-- No two of them share the hash of a virtual node.
abbrev pub IsApart : Hasher → ℤ → List Op → Type 0
IsApart hasher n ops =
    (u w : AddrKey) (q : ℕ)
    → Named u ops
    → Named w ops
    → Occurs q (virtual_hashes hasher u 0 (rounds n))
    → Occurs q (virtual_hashes hasher w 0 (rounds n))
    → u ≡ w
