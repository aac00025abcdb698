-- ===== src/Routing/Router/Routes.antt =====
-- Where the router of router.go sends requests after any history of calls.
use mathlib.Core.Path.{subst}
use gale_lb.Prelude.{
  ℕ, zero, suc, ◌<◌, ◌≡◌, ◌⊎◌, refl, sym, ap, ◌∙◌, inl, inr, List, [], ◌∷◌, none, some, arith, ok,
}
use gale_lb.Prelude.Int.{ℤ, pos, negsuc}
use gale_lb.Prelude.Text.{Str}
use gale_lb.Routing.Label.{addr_to_string}
use gale_lb.Routing.Ring.{Hasher, Ring, new_ring, rounds, owner, get_node}
use gale_lb.Routing.Ring
use gale_lb.Routing.Ring.Clockwise.{IsNearest}
use gale_lb.Routing.Ring.Nearest.{IsOrdered, get_node-IsNearest, get_node-none_iff}
use gale_lb.Routing.Ring.Invariant.{new_ring-IsOrdered}
use gale_lb.Routing.Ring.History.{Op, adds, removes, run-IsOrdered, run-hasher, HasRemoval}
use gale_lb.Routing.Ring.Ideal.{IsApart, route}
use gale_lb.Routing.Ring.Ideal.Refinement.{get_node-route}
use gale_lb.Routing.Ring.History
use gale_lb.Routing.Hashing.{crc32_hasher}
use gale_lb.Routing.Hashing.Width.{crc32_hasher-lt}
use gale_lb.Routing.Xdp.{Ebpf}
use gale_lb.Routing.Router.{Router, new, add_node, remove_node}

-- The calls of `AddNode` and `RemoveNode`; the latest stands first.
unfoldable pub run : List Op → Router → Router
run [] r = r
run (adds node ∷ earlier) r = add_node (run earlier r) node
run (removes node ∷ earlier) r = remove_node (run earlier r) node

run-ring : (ops : List Op) (r : Router) → (run ops r).ring ≡ History.run ops r.ring
unfolding run add_node remove_node History.run History.apply
run-ring [] r = refl
run-ring (adds node ∷ ops) r = ap (λ x. Ring.add_node x node) (run-ring ops r)
run-ring (removes node ∷ ops) r = ap (λ x. Ring.remove_node x node) (run-ring ops r)

-- The answer of a router: none from an empty ring, which panics, and else that of the nearest point.
abbrev Routes : Ring → Str → Type 0
Routes ring key =
    ((ring.ring ≡ []) × (get_node ring key ≡ none))
    ⊎ ((p : ℕ) × IsNearest (crc32_hasher key) p ring.ring
        × (get_node ring key ≡ some (addr_to_string (owner ring p))))

module _ (ebpf : Ebpf) (net_iface_public net_iface_private : Str)
    (clients_port num_virtual_nodes : ℤ) (k : ebpf.Kernel) {r : Router}
    (made : (new ebpf net_iface_public net_iface_private clients_port num_virtual_nodes k).0
      ≡ ok r) where
  new_ring_made :
      (0 < rounds num_virtual_nodes) × (r.ring ≡ new_ring crc32_hasher num_virtual_nodes)
  unfolding new
  new_ring_made = positive num_virtual_nodes made
    where
      positive :
          (n : ℤ)
          → (new ebpf net_iface_public net_iface_private clients_port n k).0 ≡ ok r
          → (0 < rounds n) × (r.ring ≡ new_ring crc32_hasher n)
      positive (pos zero) e = absurd (ground arith)
      positive (negsuc n) e = absurd (ground arith)
      positive (pos (suc n)) e = (omega arith, ground arith)

  ordered : (ops : List Op) → IsOrdered (run ops r).ring
  ordered ops = subst IsOrdered (sym (run-ring ops r ∙ ap (History.run ops) new_ring_made.1)) (
      run-IsOrdered ops (new_ring crc32_hasher num_virtual_nodes)
        (new_ring-IsOrdered crc32_hasher num_virtual_nodes crc32_hasher-lt))

  hashed : (ops : List Op) → (run ops r).ring.hasher ≡ crc32_hasher
  unfolding new_ring
  hashed ops =
      ap (λ (x : Ring). x.hasher) (run-ring ops r ∙ ap (History.run ops) new_ring_made.1)
      ∙ (run-hasher ops (new_ring crc32_hasher num_virtual_nodes)).0

  -- A router that `New` has made, after any calls of `AddNode` and `RemoveNode`: the lookup panics if the
  -- ring is empty, and else answers with the owner of the point that lies nearest behind the CRC-32 of the
  -- request, clockwise.
  get_node-run : (ops : List Op) (key : Str) → Routes (run ops r).ring key
  get_node-run ops key = by_points (run ops r).ring.ring refl
    where
      ring : Ring
      ring = (run ops r).ring

      by_points : (points : List ℕ) → ring.ring ≡ points → Routes ring key
      by_points [] e = inl (e, (get_node-none_iff ring key (ordered ops)).1 e)
      by_points (x ∷ xs) e =
          let (p, nearest, found) = get_node-IsNearest ring key (ordered ops) (λ n. cc) in
          inr (p, subst (λ (f : Hasher). IsNearest (f key) p ring.ring) (hashed ops) nearest, found)

  -- A router that `New` has made, after calls of `AddNode` and at least one of `RemoveNode`, in which no two
  -- nodes share the CRC-32 of a virtual node: a lookup gives what a search through all virtual nodes of the
  -- nodes that were added and not removed since gives: the node of the one that lies nearest behind the
  -- CRC-32 of the request, clockwise, and a panic if there is none.
  pub run-route :
      (ops : List Op) (key : Str)
      → HasRemoval ops
      → IsApart crc32_hasher num_virtual_nodes ops
      → get_node (run ops r).ring key ≡ route crc32_hasher num_virtual_nodes ops key
  run-route ops key removal apart =
      ap (λ (x : Ring). get_node x key) (run-ring ops r ∙ ap (History.run ops) new_ring_made.1)
      ∙ get_node-route crc32_hasher num_virtual_nodes ops key crc32_hasher-lt removal apart
