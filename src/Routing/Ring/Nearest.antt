-- ===== src/Routing/Ring/Nearest.antt =====
-- The lookup of ring.go takes the nearest point, and fails only where the ring has none.
use native.Mathlib.Decide.{dec_le}
use gale_lb.Prelude.{
  ℕ, ◌≤◌, ◌<◌, ◌≡◌, ◌≢◌, ◌↔◌, refl, sym, ap, ◌∙◌, inl, inr, none, some, List, [], ◌∷◌, arith, leb,
  get_elem?, Bool-cases, Option-cases, Occurs, All, All_at,
}
use gale_lb.Prelude.Sorting.{IsSorted}
use gale_lb.Prelude.Map.{keys}
use gale_lb.Prelude.Text.{Str}
use gale_lb.Routing.Label.{addr_to_string}
use gale_lb.Routing.Ring.{Ring, owner, point_of, get_node}
use gale_lb.Routing.Ring.Clockwise.{
  u32_mod, distance, IsNearest, successor, clockwise, point_of-clockwise,
}

-- The ring is ascending, and every number in it is a uint32.
pub record IsOrdered (r : Ring) : Type 0 where
  pub sorted : IsSorted r.ring
  pub fits : All (λ h. h < u32_mod) r.ring
  pub keys_fit : All (λ h. h < u32_mod) (keys r.nodes)
  pub hashes_fit : (s : Str) → r.hasher s < u32_mod

abbrev IsSuccessor : ℕ → ℕ → List ℕ → Type 0
IsSuccessor h p xs = Occurs p xs × (h ≤ p) × ((q : ℕ) → Occurs q xs → h ≤ q → p ≤ q)

successor-IsSuccessor :
    (h p : ℕ) (xs : List ℕ) → IsSorted xs → successor h xs ≡ some p → IsSuccessor h p xs
unfolding successor
successor-IsSuccessor h p [] s e = cc
successor-IsSuccessor h p (x ∷ xs) (a, s) e = elim (Bool-cases (leb h x)) [
  | inl hit ↦
      let found : x ≡ p = ground arith in
      (
        inl (sym found),
        ground arith,
        λ q o le. elim o [
          | inl e ↦ omega arith
          | inr o ↦ omega (arith, All_at (λ y. x ≤ y) xs q a o)
        ],
      )
  | inr miss ↦
      let (o, le, least) = successor-IsSuccessor h p xs s (ground arith) in
      (inr o, le, λ q w l. elim w [ inl e ↦ absurd (ground arith) | inr w ↦ least q w l ])
]

successor-none : (h : ℕ) (xs : List ℕ) → successor h xs ≡ none → (q : ℕ) → Occurs q xs → q < h
unfolding successor
successor-none h [] e q o = absurd o
successor-none h (x ∷ xs) e q (inl eq) = ground arith
successor-none h (x ∷ xs) e q (inr o) = elim (Bool-cases (leb h x)) [
  | inl hit ↦ absurd (ground arith)
  | inr miss ↦ successor-none h xs (ground arith) q o
]

distance_ahead :
    (h p q : ℕ)
    → h ≤ p
    → p < u32_mod
    → q < u32_mod
    → h < u32_mod
    → (h ≤ q → p ≤ q)
    → distance h p ≤ distance h q
distance_ahead h p q le hp hq hh least = elim (dec_le h q) [
  | yes ahead ↦ let closer = least ahead in omega arith
  | no behind ↦ omega arith
]

clockwise-IsNearest :
    (h p : ℕ) (xs : List ℕ)
    → IsSorted xs
    → All (λ x. x < u32_mod) xs
    → h < u32_mod
    → clockwise h xs ≡ some p
    → IsNearest h p xs
unfolding clockwise
clockwise-IsNearest h p xs s fits hh e = elim (Option-cases (successor h xs)) [
  | inl missing ↦ from_start xs s fits (successor-none h xs missing) (rw (missing, clockwise) at e)
  | inr (p', found) ↦
      let same : p' ≡ p = ground arith in
      let (o, le, least) = successor-IsSuccessor h p xs s (rw same at found) in
      record {
        on_ring = o;
        nearest = λ q w.
            distance_ahead h p q le (All_at (λ x. x < u32_mod) xs p fits o)
              (All_at (λ x. x < u32_mod) xs q fits w) hh (least q w);
      }
]
  where
    from_start :
        (ys : List ℕ)
        → IsSorted ys
        → All (λ x. x < u32_mod) ys
        → ((q : ℕ) → Occurs q ys → q < h)
        → get_elem? ys 0 ≡ some p
        → IsNearest h p ys
    from_start [] s fits below e = cc
    from_start (y ∷ ys) (a, s) fits below e =
        let first : y ≡ p = ground arith in
        record {
          on_ring = inl (sym first);
          nearest = λ q w. elim w [
            | inl e ↦ omega arith
            | inr w ↦
                omega (arith, All_at (λ z. y ≤ z) ys q a w, below q (inr w), below y (inl refl))
          ];
        }

clockwise-total : (h x : ℕ) (xs : List ℕ) → (p : ℕ) × (clockwise h (x ∷ xs) ≡ some p)
unfolding clockwise
clockwise-total h x xs = elim (Option-cases (successor h (x ∷ xs))) [
  | inl missing ↦ (x, rw (missing, clockwise))
  | inr (p, found) ↦ (p, rw (found, clockwise))
]

-- What the lookup returns is read at the point that it selects.
pub get_node-point_of :
    (r : Ring) (key : Str) {p : ℕ}
    → point_of r key ≡ some p
    → get_node r key ≡ some (addr_to_string (owner r p))
unfolding get_node
get_node-point_of r key e = rw (e, get_node)

pub point_of-IsNearest :
    (r : Ring) (key : Str) (p : ℕ)
    → IsOrdered r
    → point_of r key ≡ some p
    → IsNearest (r.hasher key) p r.ring
point_of-IsNearest r key p v e =
    clockwise-IsNearest (r.hasher key) p r.ring v.sorted v.fits (v.hashes_fit key)
      (sym (point_of-clockwise r key v.sorted) ∙ e)

pub point_of-total :
    (r : Ring) (key : Str) → IsOrdered r → r.ring ≢ [] → (p : ℕ) × (point_of r key ≡ some p)
point_of-total r key v ne = go r.ring refl
  where
    go : (xs : List ℕ) → r.ring ≡ xs → (p : ℕ) × (point_of r key ≡ some p)
    go [] e = absurd (ne e)
    go (x ∷ xs) e =
        let (p, found) = clockwise-total (r.hasher key) x xs in
        (p, point_of-clockwise r key v.sorted ∙ ap (clockwise (r.hasher key)) e ∙ found)

-- On an ordered ring with a point, a request goes to the owner of the point that lies nearest
-- behind its hash, clockwise.
pub get_node-IsNearest :
    (r : Ring) (key : Str)
    → IsOrdered r
    → r.ring ≢ []
    → (p : ℕ) × IsNearest (r.hasher key) p r.ring
      × (get_node r key ≡ some (addr_to_string (owner r p)))
get_node-IsNearest r key v ne =
    let (p, e) = point_of-total r key v ne in
    (p, point_of-IsNearest r key p v e, get_node-point_of r key e)

-- On an ordered ring the lookup panics exactly if the ring is empty.
pub get_node-none_iff :
    (r : Ring) (key : Str) → IsOrdered r → (get_node r key ≡ none) ↔ (r.ring ≡ [])
unfolding clockwise successor get_node
get_node-none_iff r key v = (fails r.ring refl, empty)
  where
    fails : (xs : List ℕ) → r.ring ≡ xs → get_node r key ≡ none → r.ring ≡ []
    fails [] e h = e
    fails (x ∷ xs) e h = let (p, _, found) = get_node-IsNearest r key v (λ n. cc) in absurd (cc)

    missing : r.ring ≡ [] → point_of r key ≡ none
    missing e = point_of-clockwise r key v.sorted ∙ ap (clockwise (r.hasher key)) e

    empty : r.ring ≡ [] → get_node r key ≡ none
    empty e = rw (missing e, get_node)
