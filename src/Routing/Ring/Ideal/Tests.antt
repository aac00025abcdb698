-- ===== src/Routing/Ring/Ideal/Tests.antt =====
-- The ring of ring.go against what its calls promise, at a concrete history.
use mathlib.Core.Path.{subst}
use gale_lb.Prelude.{ℕ, ◌≡◌, ◌⊎◌, refl, sym, ◌∙◌, inl, inr, some, arith, Occurs}
use gale_lb.Prelude.Int.{pos}
use gale_lb.Prelude.Text.{codes}
use gale_lb.Routing.Label.{AddrKey, addr_to_string, virtual_label}
use gale_lb.Routing.Ring.{new_ring, virtual_hashes, get_node}
use gale_lb.Routing.Ring.History.{run}
use gale_lb.Routing.Ring.Tests.{byte_sum, byte_sum_fits, first, second, swapped}
use gale_lb.Routing.Ring.Ideal.{addr_beq, without, members, placed, closest, route, Named, IsApart}
use gale_lb.Routing.Ring.Ideal.Refinement.{get_node-route}

two_names : (w : AddrKey) → Named w swapped → (w ≡ second) ⊎ (w ≡ first)
two_names w (inl e) = inl e
two_names w (inr (inl e)) = inr e
two_names w (inr (inr (inl e))) = inr e
two_names w (inr (inr (inr n))) = absurd n

nothing_shared :
    (q : ℕ)
    → Occurs q (virtual_hashes byte_sum first 0 2)
    → ¬ Occurs q (virtual_hashes byte_sum second 0 2)
unfolding virtual_hashes virtual_label byte_sum
nothing_shared q o b = omega arith

swapped-IsApart : IsApart byte_sum (pos 2) swapped
swapped-IsApart u w q a b o p = elim (two_names u a) [
  | inl e ↦ elim (two_names w b) [
    | inl f ↦ e ∙ sym f
    | inr f ↦ absurd (nothing_shared q (at f p) (at e o))
  ]
  | inr e ↦ elim (two_names w b) [
    | inl f ↦ absurd (nothing_shared q (at e o) (at f p))
    | inr f ↦ e ∙ sym f
  ]
]
  where
    at :
        {x y : AddrKey}
        → x ≡ y
        → Occurs q (virtual_hashes byte_sum x 0 2)
        → Occurs q (virtual_hashes byte_sum y 0 2)
    at e = subst (λ x. Occurs q (virtual_hashes byte_sum x 0 2)) e

get_node-route_example :
    get_node (run swapped (new_ring byte_sum (pos 2))) (codes "k")
    ≡ route byte_sum (pos 2) swapped (codes "k")
get_node-route_example =
    get_node-route byte_sum (pos 2) swapped (codes "k") byte_sum_fits tt swapped-IsApart

promised : route byte_sum (pos 2) swapped (codes "k") ≡ some (codes "22:80")
unfolding route members without placed closest virtual_hashes virtual_label byte_sum addr_to_string
    addr_beq
promised = refl
