-- ===== src/Routing/Ring/AnyOrder.antt =====
-- The order in which nodes join the ring of ring.go.
use mathlib.Core.Path.{subst}
use mathlib.Core.Logic.{∥∥₁_elim}
use native.Mathlib.Nat.{ℕ_set}
use mathlib.Core.List.{Perm, Permᴰ}
use gale_lb.Prelude.{ℕ, Option, ◌≡◌, List, [], ◌∷◌, All, Occurs}
use gale_lb.Prelude.Text.{Str}
use gale_lb.Routing.Label.{AddrKey}
use gale_lb.Routing.Ring.{Ring, rounds, virtual_hashes, get_node, add_node}
use gale_lb.Routing.Ring.Nearest.{IsOrdered}
use gale_lb.Routing.Ring.Members.{hashes_of}
use gale_lb.Routing.Ring.Filler.{add_all, add_all-IsOrdered, add_all-hasher}
use gale_lb.Routing.Ring.Agreement.{
  Agrees, Agrees-refl, Agrees-trans, get_node-Agrees, add_node-Agrees, swapped-Agrees,
}

-- Two nodes without a common hash.
abbrev pub Apart : Ring → AddrKey → AddrKey → Type 0
Apart r a b = (q : ℕ) → Occurs q (hashes_of r a) → ¬ Occurs q (hashes_of r b)

abbrev pub AllApart : Ring → List AddrKey → Type 0
AllApart r [] = Unit {0}
AllApart r (node ∷ nodes) = All (Apart r node) nodes × AllApart r nodes

perm-All : (P : AddrKey → Type 0) {xs ys : List AddrKey} → Permᴰ xs ys → All P xs → All P ys
perm-All P Permᴰ.nil h = h
perm-All P (Permᴰ.cons e p) (h, hs) = (subst P e h, perm-All P p hs)
perm-All P (Permᴰ.swap e f) (h, (h', hs)) = (subst P f h', (subst P e h, hs))
perm-All P (Permᴰ.trans p q) h = perm-All P q (perm-All P p h)

perm-AllApart : (r : Ring) {xs ys : List AddrKey} → Permᴰ xs ys → AllApart r xs → AllApart r ys
perm-AllApart r Permᴰ.nil h = h
perm-AllApart r (Permᴰ.cons {b = b} {l₂ = ys} e p) (h, hs) =
    (subst (λ a. All (Apart r a) ys) e (perm-All (Apart r _) p h), perm-AllApart r p hs)
perm-AllApart r (Permᴰ.swap {a = a} {b = b} {b' = b'} {l = l} e f) ((ab, al), (bl, hs)) = (
  (
    subst (λ x. Apart r x b') f (subst (Apart r b) e (λ q o o'. ab q o' o)),
    subst (λ x. All (Apart r x) l) f bl,
  ),
  (subst (λ x. All (Apart r x) l) e al, hs),
)
perm-AllApart r (Permᴰ.trans p q) h = perm-AllApart r q (perm-AllApart r p h)

add_all-hashes_of :
    (r : Ring) (nodes : List AddrKey) (a : AddrKey) → hashes_of (add_all r nodes) a ≡ hashes_of r a
add_all-hashes_of r nodes a =
    let (h, n) = add_all-hasher r nodes in λ i. virtual_hashes (h i) a 0 (rounds (n i))

later-Apart :
    (r : Ring) (nodes : List AddrKey) (a b : AddrKey) → Apart r a b → Apart (add_all r nodes) a b
later-Apart r nodes a b h q o o' =
    h q (subst (Occurs q) (add_all-hashes_of r nodes a) o)
      (subst (Occurs q) (add_all-hashes_of r nodes b) o')

both_swapped :
    (r : Ring) (nodes : List AddrKey) (a b : AddrKey)
    → Apart r a b
    → Agrees (add_all r (a ∷ b ∷ nodes)) (add_all r (b ∷ a ∷ nodes))
unfolding add_all
both_swapped r nodes a b apart =
    swapped-Agrees (add_all r nodes) b a (later-Apart r nodes b a (λ q o o'. apart q o' o))

perm-Agrees :
    (r : Ring) {xs ys : List AddrKey}
    → Permᴰ xs ys
    → AllApart r xs
    → Agrees (add_all r xs) (add_all r ys)
unfolding add_all
perm-Agrees r Permᴰ.nil h = Agrees-refl r
perm-Agrees r (Permᴰ.cons {a = a} {b = b} {l₁ = xs} {l₂ = ys} e p) (h, hs) =
    subst (λ x. Agrees (add_node (add_all r xs) a) (add_node (add_all r ys) x)) e
      (add_node-Agrees (add_all r xs) (add_all r ys) a (perm-Agrees r p hs))
perm-Agrees r (Permᴰ.swap {a = a} {b = b} {a' = a'} {b' = b'} {l = l} e f) ((ab, al), (bl, hs)) =
    subst (λ x. Agrees (add_all r (a ∷ b ∷ l)) (add_all r (x ∷ b' ∷ l))) f
      (subst (λ x. Agrees (add_all r (a ∷ b ∷ l)) (add_all r (b ∷ x ∷ l))) e
        (both_swapped r l a b ab))
perm-Agrees r (Permᴰ.trans {l₁ = xs} {l₂ = ys} {l₃ = zs} p q) h =
    Agrees-trans (add_all r xs) (add_all r ys) (add_all r zs) (perm-Agrees r p h)
      (perm-Agrees r q (perm-AllApart r p h))

-- On an ordered ring, nodes of which no two have a hash in common may join in any order: every request
-- gets the same answer.
pub get_node-add_all_any_order :
    (r : Ring) (xs ys : List AddrKey) (key : Str)
    → Perm xs ys
    → AllApart r xs
    → IsOrdered r
    → get_node (add_all r ys) key ≡ get_node (add_all r xs) key
get_node-add_all_any_order r xs ys key p apart v = ∥∥₁_elim p (answer_set _ _) (λ d.
    get_node-Agrees (add_all r xs) (add_all r ys) key (add_all-IsOrdered r xs v)
      (add_all-IsOrdered r ys v) (perm-Agrees r d apart))
  where
    answer_set : IsSet (Option Str)
    answer_set = hlevel ℕ_set
