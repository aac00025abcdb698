-- ===== src/Routing/Ring/Ideal/Closest.antt =====
-- The closest virtual node is one of those given, and none of them lies nearer.
use mathlib.Core.Path.{subst}
use gale_lb.Prelude.{
  ap, ℕ, ◌≤◌, ◌≡◌, refl, sym, inl, inr, none, some, List, [], ◌∷◌, leb, arith, Bool-cases,
  Option-cases, Occurs, Occurs-append_left, Occurs-append_right, Occurs-append_cases,
}
use gale_lb.Prelude.Int.{ℤ}
use gale_lb.Routing.Label.{AddrKey}
use gale_lb.Routing.Ring.{Hasher, rounds, virtual_hashes}
use gale_lb.Routing.Ring.Clockwise.{distance}
use gale_lb.Routing.Ring.Ideal.{at_hashes, placed, closest}

pub record IsClosest (h : ℕ) (x : ℕ × AddrKey) (xs : List (ℕ × AddrKey)) : Type 0 where
  pub given : Occurs x xs
  pub nearest : (y : ℕ × AddrKey) → Occurs y xs → distance h x.0 ≤ distance h y.0

pub closest-none : (h : ℕ) (xs : List (ℕ × AddrKey)) → closest h xs ≡ none → xs ≡ []
unfolding closest
closest-none h [] e = refl
closest-none h (x ∷ xs) e = elim (Option-cases (closest h xs)) [
  | inl nothing ↦ absurd (ground arith)
  | inr (y, found) ↦ absurd (ground arith)
]

pub closest-IsClosest :
    (h : ℕ) (xs : List (ℕ × AddrKey)) (z : ℕ × AddrKey) → closest h xs ≡ some z → IsClosest h z xs
unfolding closest
closest-IsClosest h [] z e = absurd (cc)
closest-IsClosest h (x ∷ xs) z e = elim (Option-cases (closest h xs)) [
  | inl nothing ↦
      let first : x ≡ z = ground arith in
      subst (λ w. IsClosest h w (x ∷ xs)) first
        (record {
          given = inl refl;
          nearest = λ w o. elim o [
            | inl e ↦ omega (arith, ap (λ v. distance h v.0) e)
            | inr o ↦ absurd (subst (Occurs w) (closest-none h xs nothing) o)
          ];
        })
  | inr (y, found) ↦
      let c = closest-IsClosest h xs y found in
      elim (Bool-cases (leb (distance h x.0) (distance h y.0))) [
        | inl nearer ↦
            let first : x ≡ z = ground arith in
            subst (λ w. IsClosest h w (x ∷ xs)) first
              (record {
                given = inl refl;
                nearest = λ w o. elim o [
                  | inl e ↦ omega (arith, ap (λ v. distance h v.0) e)
                  | inr o ↦ ground (arith, c.nearest w o)
                ];
              })
        | inr farther ↦
            let later : y ≡ z = ground arith in
            subst (λ w. IsClosest h w (x ∷ xs)) later
              (record {
                given = inr c.given;
                nearest = λ w o. elim o [
                  | inl e ↦ ground (arith, ap (λ v. distance h v.0) e)
                  | inr o ↦ c.nearest w o
                ];
              })
      ]
]

pub at_hashes-Occurs :
    (w : AddrKey) (qs : List ℕ) (x : ℕ × AddrKey)
    → Occurs x (at_hashes w qs)
    → Occurs x.0 qs × (x.1 ≡ w)
unfolding at_hashes
at_hashes-Occurs w [] x o = absurd o
at_hashes-Occurs w (q ∷ qs) x (inl e) = (inl (ap (λ y. y.0) e), ap (λ y. y.1) e)
at_hashes-Occurs w (q ∷ qs) x (inr o) = let (p, e) = at_hashes-Occurs w qs x o in (inr p, e)

Occurs-at_hashes :
    (w : AddrKey) (qs : List ℕ) (q : ℕ) → Occurs q qs → Occurs (q, w) (at_hashes w qs)
unfolding at_hashes
Occurs-at_hashes w [] q o = absurd o
Occurs-at_hashes w (p ∷ qs) q (inl e) = inl (ap (λ x. (x, w)) e)
Occurs-at_hashes w (p ∷ qs) q (inr o) = inr (Occurs-at_hashes w qs q o)

module _ (hasher : Hasher) (n : ℤ) where
  pub placed-Occurs :
      (ws : List AddrKey) (x : ℕ × AddrKey)
      → Occurs x (placed hasher n ws)
      → Occurs x.1 ws × Occurs x.0 (virtual_hashes hasher x.1 0 (rounds n))
  unfolding placed
  placed-Occurs [] x o = absurd o
  placed-Occurs (w ∷ ws) x o =
      elim (Occurs-append_cases x (at_hashes w (virtual_hashes hasher w 0 (rounds n))) _ o) [
        | inl here ↦
            let (p, e) = at_hashes-Occurs w (virtual_hashes hasher w 0 (rounds n)) x here in
            (inl e, subst (λ a. Occurs x.0 (virtual_hashes hasher a 0 (rounds n))) (sym e) p)
        | inr later ↦ let (m, p) = placed-Occurs ws x later in (inr m, p)
      ]

  pub Occurs-placed :
      (ws : List AddrKey) (w : AddrKey) (q : ℕ)
      → Occurs w ws
      → Occurs q (virtual_hashes hasher w 0 (rounds n))
      → Occurs (q, w) (placed hasher n ws)
  unfolding placed
  Occurs-placed [] w q m o = absurd m
  Occurs-placed (v ∷ ws) w q (inl e) o =
      Occurs-append_left (q, w) _ _
        (subst (λ a. Occurs (q, w) (at_hashes a (virtual_hashes hasher a 0 (rounds n)))) e
          (Occurs-at_hashes w (virtual_hashes hasher w 0 (rounds n)) q o))
  Occurs-placed (v ∷ ws) w q (inr m) o =
      Occurs-append_right (q, w) (at_hashes v (virtual_hashes hasher v 0 (rounds n))) _
        (Occurs-placed ws w q m o)
