-- ===== src/Routing/Ring/Ideal/Refinement.antt =====
-- The ring of ring.go answers what its calls promise.
use mathlib.Core.Path.{subst}
use gale_lb.Prelude.{
  ℕ, ◌<◌, ◌≤◌, ◌≡◌, refl, sym, ap, ◌∙◌, inl, inr, some, List, [], ◌∷◌, Option-cases, Occurs,
}
use gale_lb.Prelude.Int.{ℤ}
use gale_lb.Prelude.Equality.{nat_eq}
use gale_lb.Prelude.Map.{lookup}
use gale_lb.Prelude.Text.{Str}
use gale_lb.Routing.Label.{AddrKey, addr_to_string}
use gale_lb.Routing.Ring.{Ring, Hasher, new_ring, owner, get_node}
use gale_lb.Routing.Ring.Clockwise.{u32_mod, distance, IsNearest, IsNearest-unique}
use gale_lb.Routing.Ring.Nearest.{IsOrdered, get_node-IsNearest, get_node-none_iff}
use gale_lb.Routing.Ring.Invariant.{IsIndexed, new_ring-IsOrdered}
use gale_lb.Routing.Ring.Disruption.{owner-lookup}
use gale_lb.Routing.Ring.History.{
  Op, run, run-hasher, run-IsOrdered, HasRemoval, run-IsIndexed, entry-IsMember,
}
use gale_lb.Routing.Ring.Ideal.{members, placed, closest, route, IsApart}
use gale_lb.Routing.Ring.Ideal.Closest.{
  IsClosest, closest-none, closest-IsClosest, placed-Occurs, Occurs-placed,
}
use gale_lb.Routing.Ring.Ideal.Held.{members_iff, lookup-member}

module _ (hasher : Hasher) (n : ℤ) (ops : List Op) (key : Str)
    (fits : (s : Str) → hasher s < u32_mod) (removal : HasRemoval ops)
    (apart : IsApart hasher n ops) where
  abbrev r : Ring
  r = run ops (new_ring hasher n)

  abbrev points : List (ℕ × AddrKey)
  points = placed hasher n (members ops)

  ordered : IsOrdered r
  ordered = run-IsOrdered ops (new_ring hasher n) (new_ring-IsOrdered hasher n fits)

  indexed : IsIndexed r
  indexed = run-IsIndexed ops (new_ring hasher n) removal

  same_hash : r.hasher key ≡ hasher key
  unfolding new_ring
  same_hash = ap (λ (f : Hasher). f key) ((run-hasher ops (new_ring hasher n)).0)

  -- Each point of the ring is a virtual node of a member.
  point-placed : (q : ℕ) → Occurs q r.ring → (w : AddrKey) × Occurs (q, w) points
  point-placed q o =
      let (w, at) = (indexed q).0 o in
      let (m, h) = entry-IsMember hasher n ops q w at in
      (w, Occurs-placed hasher n (members ops) w q ((members_iff ops w).1 m) h)

  -- Each virtual node of a member is held by that member.
  placed-lookup : (x : ℕ × AddrKey) → Occurs x points → lookup x.0 r.nodes ≡ some x.1
  placed-lookup x o =
      let (m, h) = placed-Occurs hasher n (members ops) x o in
      lookup-member hasher n ops x.1 x.0 apart ((members_iff ops x.1).0 m) h

  no_point : points ≡ [] → (ring : List ℕ) → r.ring ≡ ring → r.ring ≡ []
  no_point none_placed [] e = e
  no_point none_placed (q ∷ qs) e =
      let (w, o) = point-placed q (subst (Occurs q) (sym e) (inl refl)) in
      absurd (subst (Occurs (q, w)) none_placed o)

  closest_on_ring :
      (x : ℕ × AddrKey) → IsClosest (hasher key) x points → IsNearest (r.hasher key) x.0 r.ring
  closest_on_ring x c = record {
    on_ring = (indexed x.0).1 (x.1, placed-lookup x c.given);
    nearest = λ q o.
        let (w, there) = point-placed q o in
        subst (λ h. distance h x.0 ≤ distance h q) (sym same_hash) (c.nearest (q, w) there);
  }

  answer :
      (x : ℕ × AddrKey)
      → IsClosest (hasher key) x points
      → get_node r key ≡ some (addr_to_string x.1)
  answer x c =
      let near = closest_on_ring x c in
      let (p, nearest, found) =
        get_node-IsNearest r key ordered (λ e. absurd (subst (Occurs x.0) e near.on_ring)) in
      let same =
        IsNearest-unique (r.hasher key) p x.0 r.ring (ordered.hashes_fit key) ordered.fits nearest
          near in
      found
      ∙ ap (λ q. some (addr_to_string (owner r q))) same
      ∙ ap (λ w. some (addr_to_string w)) (owner-lookup r x.0 x.1 (placed-lookup x c.given))

  -- For a hash function into the numbers below 2 ^ 32, and a history of calls from a new ring in which
  -- `removeNode` was called at least once and no two nodes share the hash of a virtual node: a lookup in the
  -- ring gives what a search through all virtual nodes of the members gives, which are the nodes added and
  -- not removed since: the node of the one that lies nearest behind the hash of the request, clockwise, and a
  -- panic if there is none.
  pub get_node-route : get_node (run ops (new_ring hasher n)) key ≡ route hasher n ops key
  unfolding route
  get_node-route = elim (Option-cases (closest (hasher key) points)) [
    | inl nothing ↦
        (get_node-none_iff r key ordered).1
          (no_point (closest-none (hasher key) points nothing) r.ring refl)
        ∙ rw (nothing, route)
    | inr (x, found) ↦ answer x (closest-IsClosest (hasher key) points x found) ∙ rw (found, route)
  ]
