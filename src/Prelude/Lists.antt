-- ===== src/Prelude/Lists.antt =====
-- Lists measured and indexed by native numbers, under the library's names, and predicates on them.
use Prim.Native.Nat.{ℕ, zero, suc, ◌+◌, ◌<◌}
use mathlib.Core.Path.{◌≡◌, refl, sym, ap, subst}
use mathlib.Core.List.{List, [], ◌∷◌, ◌++◌}
use mathlib.Core.Logic.{◌⊎◌, inl, inr}
use mathlib.Core.Option.{Option, none, some}
use native.Mathlib.Omega.{arith}

module _ {ℓ} {A : Type ℓ} where
  abbrev pub length : List A → ℕ
  length [] = 0
  length (x ∷ xs) = suc (length xs)

  abbrev pub get_elem? : List A → ℕ → Option A
  get_elem? [] i = none
  get_elem? (x ∷ xs) zero = some x
  get_elem? (x ∷ xs) (suc i) = get_elem? xs i

  abbrev pub take : ℕ → List A → List A
  take zero xs = []
  take (suc n) [] = []
  take (suc n) (x ∷ xs) = x ∷ take n xs

  abbrev pub drop : ℕ → List A → List A
  drop zero xs = xs
  drop (suc n) [] = []
  drop (suc n) (x ∷ xs) = drop n xs

  abbrev pub replicate : ℕ → A → List A
  replicate zero a = []
  replicate (suc n) a = a ∷ replicate n a

  pub length-append : (xs ys : List A) → length (xs ++ ys) ≡ length xs + length ys
  length-append [] ys = omega arith
  length-append (x ∷ xs) ys = omega (arith, length-append xs ys)

  pub get_elem?_lt : (xs : List A) (i : ℕ) → i < length xs → (x : A) × (get_elem? xs i ≡ some x)
  get_elem?_lt [] i h = elim h [ ]
  get_elem?_lt (x ∷ xs) zero h = (x, refl)
  get_elem?_lt (x ∷ xs) (suc i) h = get_elem?_lt xs i (omega arith)

  pub take-append-drop : (n : ℕ) (xs : List A) → take n xs ++ drop n xs ≡ xs
  take-append-drop zero xs = refl
  take-append-drop (suc n) [] = refl
  take-append-drop (suc n) (x ∷ xs) = ap (◌∷◌ x) (take-append-drop n xs)

  pub take-append_length : (xs ys : List A) → take (length xs) (xs ++ ys) ≡ xs
  take-append_length [] ys = refl
  take-append_length (x ∷ xs) ys = ap (◌∷◌ x) (take-append_length xs ys)

  pub drop-append_length : (xs ys : List A) → drop (length xs) (xs ++ ys) ≡ ys
  drop-append_length [] ys = refl
  drop-append_length (x ∷ xs) ys = drop-append_length xs ys

-- Membership by recursion, kept as data so that it can be taken apart.
abbrev pub Occurs : {A : Type 0} → A → List A → Type 0
Occurs a [] = ⊥
Occurs a (x ∷ xs) = (a ≡ x) ⊎ Occurs a xs

-- Each element once.
abbrev pub IsUnique : {A : Type 0} → List A → Type 0
IsUnique [] = Unit {0}
IsUnique (x ∷ xs) = (¬ Occurs x xs) × IsUnique xs

module _ {A : Type 0} where
  pub Occurs-append_left : (a : A) (xs ys : List A) → Occurs a xs → Occurs a (xs ++ ys)
  Occurs-append_left a [] ys o = absurd o
  Occurs-append_left a (x ∷ xs) ys (inl e) = inl e
  Occurs-append_left a (x ∷ xs) ys (inr o) = inr (Occurs-append_left a xs ys o)

  pub Occurs-append_right : (a : A) (xs ys : List A) → Occurs a ys → Occurs a (xs ++ ys)
  Occurs-append_right a [] ys o = o
  Occurs-append_right a (x ∷ xs) ys o = inr (Occurs-append_right a xs ys o)

  pub Occurs-append_cases :
      (a : A) (xs ys : List A) → Occurs a (xs ++ ys) → Occurs a xs ⊎ Occurs a ys
  Occurs-append_cases a [] ys o = inr o
  Occurs-append_cases a (x ∷ xs) ys (inl e) = inl (inl e)
  Occurs-append_cases a (x ∷ xs) ys (inr o) = elim (Occurs-append_cases a xs ys o) [
    | inl l ↦ inl (inr l)
    | inr r ↦ inr r
  ]

  pub Occurs-replicate : (n : ℕ) (a b : A) → Occurs a (replicate n b) → a ≡ b
  Occurs-replicate zero a b o = absurd o
  Occurs-replicate (suc n) a b (inl e) = e
  Occurs-replicate (suc n) a b (inr o) = Occurs-replicate n a b o

module _ {ℓ κ} {A : Type ℓ} (P : A → Type κ) where
  abbrev pub All : List A → Type κ
  All [] = Unit
  All (x ∷ xs) = P x × All xs

  pub All-append : (xs ys : List A) → All xs → All ys → All (xs ++ ys)
  All-append [] ys _ hy = hy
  All-append (x ∷ xs) ys (p, hx) hy = (p, All-append xs ys hx hy)

  pub All-replicate : (n : ℕ) (a : A) → P a → All (replicate n a)
  All-replicate zero a p = tt
  All-replicate (suc n) a p = (p, All-replicate n a p)

pub All_at : {A : Type 0} (P : A → Type 0) (xs : List A) (a : A) → All P xs → Occurs a xs → P a
All_at P [] a h o = absurd o
All_at P (x ∷ xs) a (p, h) (inl e) = subst P (sym e) p
All_at P (x ∷ xs) a (p, h) (inr o) = All_at P xs a h o

pub All-of_Occurs :
    {A : Type 0} (P : A → Type 0) (xs : List A) → ((a : A) → Occurs a xs → P a) → All P xs
All-of_Occurs P [] h = tt
All-of_Occurs P (x ∷ xs) h = (h x (inl refl), All-of_Occurs P xs (λ a o. h a (inr o)))
