-- ===== src/Routing/Ring/Clockwise.antt =====
-- `getNode` against an independent description: the point of the ring that is met first when one
-- walks clockwise from the hash of the request.
use gale_lb.Prelude.{
  ℕ, zero, suc, ◌+◌, ◌-◌, ◌%◌, ◌^◌, ◌≤◌, ◌<◌, ◌≡◌, refl, sym, ap, ◌∙◌, inl, inr, Option, none, some,
  List, [], ◌∷◌, arith, true, leb, nat_beq, nat_beq_iff, if◌then◌else◌, length, get_elem?,
  Bool-cases, Occurs, All, All_at, get_elem?_lt,
}
use gale_lb.Prelude.Sorting.{IsSorted}
use gale_lb.Prelude.Search.{Splits, IsMonotone, search-Splits}
use gale_lb.Prelude.Text.{Str}
use gale_lb.Routing.Ring.{Ring, at_least, point_of}

abbrev pub u32_mod : ℕ
u32_mod = 2 ^ 32

-- How far a point lies behind a hash, clockwise on a circle of 2 ^ 32 places.
abbrev pub distance : ℕ → ℕ → ℕ
distance h p = (p + u32_mod - h) % u32_mod

pub record IsNearest (h : ℕ) (p : ℕ) (ring : List ℕ) : Type 0 where
  pub on_ring : Occurs p ring
  pub nearest : (q : ℕ) → Occurs q ring → distance h p ≤ distance h q

-- No two points are equally far.
pub IsNearest-unique :
    (h p q : ℕ) (ring : List ℕ)
    → h < u32_mod
    → All (λ x. x < u32_mod) ring
    → IsNearest h p ring
    → IsNearest h q ring
    → p ≡ q
IsNearest-unique h p q ring hh fits a b = omega (
  arith,
  a.nearest q b.on_ring,
  b.nearest p a.on_ring,
  All_at (λ x. x < u32_mod) ring p fits a.on_ring,
  All_at (λ x. x < u32_mod) ring q fits b.on_ring,
)

-- The first entry that is not below `h`.
unfoldable pub successor : ℕ → List ℕ → Option ℕ
successor h [] = none
successor h (x ∷ xs) = if leb h x then some x else successor h xs

at_least_above :
    (h x : ℕ) (xs : List ℕ) (i : ℕ)
    → h ≤ x
    → All (λ y. x ≤ y) xs
    → i < length xs
    → at_least xs h i ≡ true
unfolding at_least
at_least_above h x [] i le a lt = elim lt [ ]
at_least_above h x (y ∷ ys) zero le a lt = ground arith
at_least_above h x (y ∷ ys) (suc i) le (p, a) lt = at_least_above h x ys i le a (omega arith)

at_least-IsMonotone : (h : ℕ) (xs : List ℕ) → IsSorted xs → IsMonotone (length xs) (at_least xs h)
unfolding at_least
at_least-IsMonotone h [] s a b le lt t = elim lt [ ]
at_least-IsMonotone h (x ∷ xs) s zero zero le lt t = t
at_least-IsMonotone h (x ∷ xs) (p, s) zero (suc b) le lt t =
    at_least_above h x xs b (ground arith) p (omega arith)
at_least-IsMonotone h (x ∷ xs) s (suc a) zero le lt t = absurd (omega arith)
at_least-IsMonotone h (x ∷ xs) (p, s) (suc a) (suc b) le lt t =
    at_least-IsMonotone h xs s a b (omega arith) (omega arith) t

Splits-tail :
    (h x : ℕ) (xs : List ℕ) (i : ℕ)
    → Splits (length (x ∷ xs)) (at_least (x ∷ xs) h) (suc i)
    → Splits (length xs) (at_least xs h) i
unfolding at_least
Splits-tail h x xs i s = record {
  inside = omega (arith, s.inside);
  below = λ k lt. s.below (suc k) (omega arith);
  above = λ k le lt. s.above (suc k) (omega arith) (omega arith);
}

-- The index that splits the ring holds the first entry not below the hash.
get_elem?-successor :
    (h : ℕ) (xs : List ℕ) (i : ℕ)
    → Splits (length xs) (at_least xs h) i
    → get_elem? xs i ≡ successor h xs
unfolding successor at_least
get_elem?-successor h [] i s = refl
get_elem?-successor h (x ∷ xs) zero s = rw (s.above zero (omega arith) (omega arith))
get_elem?-successor h (x ∷ xs) (suc i) s =
    rw (s.below zero (omega arith)) (get_elem?-successor h xs i (Splits-tail h x xs i s))

-- Where no entry is reached the walk goes on from the first one.
unfoldable pub clockwise : ℕ → List ℕ → Option ℕ
clockwise h ring = elim (successor h ring) [ none ↦ get_elem? ring 0 | some p ↦ some p ]

get_elem?-length : (xs : List ℕ) → get_elem? xs (length xs) ≡ none
get_elem?-length [] = refl
get_elem?-length (x ∷ xs) = get_elem?-length xs

wrap-clockwise :
    (h : ℕ) (xs : List ℕ) (i : ℕ)
    → Splits (length xs) (at_least xs h) i
    → get_elem? xs (if nat_beq i (length xs) then 0 else i) ≡ clockwise h xs
unfolding clockwise
wrap-clockwise h xs i s = elim (Bool-cases (nat_beq i (length xs))) [
  | inl e ↦
      let none_found : successor h xs ≡ none =
        sym (get_elem?-successor h xs i s)
        ∙ ap (get_elem? xs) ((nat_beq_iff i (length xs)).0 e)
        ∙ get_elem?-length xs in
      rw (e, none_found, clockwise)
  | inr ne ↦
      let (p, hit) = get_elem?_lt xs i (ground (arith, s.inside)) in
      rw (ne, hit) (rw (sym (get_elem?-successor h xs i s) ∙ hit, clockwise))
]

-- Binary search and its wrap-around take that walk.
pub point_of-clockwise :
    (r : Ring) (key : Str) → IsSorted r.ring → point_of r key ≡ clockwise (r.hasher key) r.ring
unfolding point_of
point_of-clockwise r key s = wrap-clockwise (r.hasher key) r.ring _ (
    search-Splits (length r.ring) (at_least r.ring (r.hasher key))
      (at_least-IsMonotone (r.hasher key) r.ring s))
