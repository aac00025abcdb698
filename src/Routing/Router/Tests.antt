-- ===== src/Routing/Router/Tests.antt =====
-- The theorem on router.go over a stand-in for the kernel that refuses nothing.
use mathlib.Core.Path.{subst}
use gale_lb.Prelude.{
  ℕ, ◌≡◌, ◌⊎◌, ◌∙◌, sym, inl, inr, arith, Occurs, refl, List, [], ◌∷◌, some, true, ok,
}
use gale_lb.Prelude.Int.{pos}
use gale_lb.Prelude.Text.{codes}
use gale_lb.Prelude.Sorting.{sort}
use gale_lb.Prelude.Map.{keys, insert, delete, lookup}
use gale_lb.Prelude.Search.{search}
use gale_lb.Routing.Label.{AddrKey, virtual_label}
use gale_lb.Routing.Ring.{new_ring, get_node, virtual_hashes}
use gale_lb.Routing.Ring.Ideal.{Named, IsApart, route}
use gale_lb.Routing.Ring.History.{Op, adds, removes}
use gale_lb.Routing.Hashing.{crc32_hasher}
use gale_lb.Routing.Xdp.{Ebpf}
use gale_lb.Routing.Router.{Router, new}
use gale_lb.Routing.Router
use gale_lb.Routing.Ring
use gale_lb.Routing.Router.Routes.{run, run-route}

abbrev willing : Ebpf
willing = record {
  Kernel = Unit {0};
  Program = Unit {0};
  Collection = Unit {0};
  Link = Unit {0};
  remove_memlock = λ k. some k;
  loads_spec = true;
  new_collection = λ k. some (tt, k);
  programs = λ c name. some tt;
  close_collection = λ c k. k;
  interface_by_name = λ name. some (pos 1);
  attach_xdp = λ p index k. some (tt, k);
  close_link = λ l k. k;
}

abbrev router : Router
router = record {
  ring = new_ring crc32_hasher (pos 5);
  xdp = record {
    pub_net_interface = codes "eth1";
    priv_net_interface = codes "eth0";
    port = pos 8080;
  };
}

router_made : (new willing (codes "eth1") (codes "eth0") (pos 8080) (pos 5) tt).0 ≡ ok router
unfolding new
router_made = refl

-- Two nodes came, one left.
abbrev calls : List Op
calls =
    removes (record { ip = 1; port = 80; pad = 0 })
    ∷ adds (record { ip = 2; port = 80; pad = 0 })
    ∷ adds (record { ip = 1; port = 80; pad = 0 })
    ∷ []

calls_route : get_node (run calls router).ring (codes "10.0.0.9:4711") ≡ some (codes "2:80")
unfolding get_node run Router.remove_node Ring.remove_node sort keys Router.add_node Ring.add_node
    new_ring delete insert crc32_hasher virtual_label search lookup
calls_route = refl

abbrev one : AddrKey
one = record { ip = 1; port = 80; pad = 0 }

abbrev two : AddrKey
two = record { ip = 2; port = 80; pad = 0 }

one_or_two : (w : AddrKey) → Named w calls → (w ≡ one) ⊎ (w ≡ two)
one_or_two w (inl e) = inl e
one_or_two w (inr (inl e)) = inr e
one_or_two w (inr (inr (inl e))) = inl e
one_or_two w (inr (inr (inr n))) = absurd n

checksums_differ :
    (q : ℕ)
    → Occurs q (virtual_hashes crc32_hasher one 0 5)
    → ¬ Occurs q (virtual_hashes crc32_hasher two 0 5)
unfolding virtual_hashes virtual_label crc32_hasher
checksums_differ q o b = omega arith

calls-IsApart : IsApart crc32_hasher (pos 5) calls
calls-IsApart u w q a b o p = elim (one_or_two u a) [
  | inl e ↦ elim (one_or_two w b) [
    | inl f ↦ e ∙ sym f
    | inr f ↦ absurd (checksums_differ q (of_node e o) (of_node f p))
  ]
  | inr e ↦ elim (one_or_two w b) [
    | inl f ↦ absurd (checksums_differ q (of_node f p) (of_node e o))
    | inr f ↦ e ∙ sym f
  ]
]
  where
    of_node :
        {x y : AddrKey}
        → x ≡ y
        → Occurs q (virtual_hashes crc32_hasher x 0 5)
        → Occurs q (virtual_hashes crc32_hasher y 0 5)
    of_node e = subst (λ x. Occurs q (virtual_hashes crc32_hasher x 0 5)) e

run-route_example :
    get_node (run calls router).ring (codes "10.0.0.9:4711")
    ≡ route crc32_hasher (pos 5) calls (codes "10.0.0.9:4711")
run-route_example =
    run-route willing (codes "eth1") (codes "eth0") (pos 8080) (pos 5) tt router_made calls
      (codes "10.0.0.9:4711") tt calls-IsApart
