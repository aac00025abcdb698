-- ===== src/Node/Dispatcher/Names.antt =====
-- The names under which dispatcher.go knows its health loops.
use gale_lb.Prelude.{
  ℕ, ◌+◌, ◌<◌, ◌≡◌, refl, ap, inl, inr, List, [], ◌∷◌, ◌++◌, arith, All, Occurs, IsUnique,
}
use gale_lb.Prelude.Equality.{nat_eq, eq_iff}
use gale_lb.Prelude.Map.{Map, keys, insert}
use gale_lb.Node.Targets.{Target}
use gale_lb.Node.Dispatcher.{Loop}

-- Names below a bound, each once.
abbrev pub IsFresh : ℕ → Map ℕ Loop → Type 0
IsFresh next m = IsUnique (keys m) × All (λ k. k < next) (keys m)

abbrev pub targets_of : Map ℕ Loop → List Target
targets_of [] = []
targets_of ((i, l) ∷ m) = l.target ∷ targets_of m

pub insert_new :
    (next : ℕ) (l : Loop) (m : Map ℕ Loop)
    → All (λ k. k < next) (keys m)
    → insert next l m ≡ m ++ (next, l) ∷ []
unfolding insert keys
insert_new next l [] h = refl
insert_new next l ((i, k) ∷ m) (below, h) = ground (arith, insert_new next l m h, eq_iff i next)

All-weaken : (n : ℕ) (is : List ℕ) → All (λ k. k < n) is → All (λ k. k < n + 1) is
All-weaken n [] h = tt
All-weaken n (i ∷ is) (below, h) = (omega arith, All-weaken n is h)

pub append-All :
    (n : ℕ) (l : Loop) (m : Map ℕ Loop)
    → All (λ k. k < n) (keys m)
    → All (λ k. k < n + 1) (keys (m ++ (n, l) ∷ []))
unfolding keys
append-All n l [] h = (omega arith, tt)
append-All n l ((i, k) ∷ m) (below, h) = (omega arith, append-All n l m h)

not_last :
    (i n : ℕ) (l : Loop) (m : Map ℕ Loop)
    → i < n
    → ¬ Occurs i (keys m)
    → ¬ Occurs i (keys (m ++ (n, l) ∷ []))
unfolding keys
not_last i n l [] below absent (inl e) = absurd (omega arith)
not_last i n l [] below absent (inr o) = absurd o
not_last i n l ((j, k) ∷ m) below absent (inl e) = absent (inl e)
not_last i n l ((j, k) ∷ m) below absent (inr o) = not_last i n l m below (λ o'. absent (inr o')) o

pub append-IsUnique :
    (n : ℕ) (l : Loop) (m : Map ℕ Loop)
    → IsUnique (keys m)
    → All (λ k. k < n) (keys m)
    → IsUnique (keys (m ++ (n, l) ∷ []))
unfolding keys
append-IsUnique n l [] u h = ((λ o. o), tt)
append-IsUnique n l ((i, k) ∷ m) (absent, u) (below, h) =
    (not_last i n l m below absent, append-IsUnique n l m u h)

pub targets_of-append :
    (n : ℕ) (l : Loop) (m : Map ℕ Loop)
    → targets_of (m ++ (n, l) ∷ []) ≡ targets_of m ++ l.target ∷ []
targets_of-append n l [] = refl
targets_of-append n l ((i, k) ∷ m) = ap (λ ts. k.target ∷ ts) (targets_of-append n l m)
