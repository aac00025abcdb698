-- ===== src/Prelude/Sorting.antt =====
-- `sort.Slice` by `<` on unsigned numbers: the ascending rearrangement of a list.
use mathlib.Core.Path.{◌≡◌, refl, ap₂, ◌∙◌}
use mathlib.Core.Logic.{◌↔◌, ◌⊎◌, ∥∥₁_elim}
use mathlib.Core.List.{List, [], ◌∷◌, Perm, Permᴰ}
use Prim.Native.Nat.{ℕ, ◌≤◌}
use native.Mathlib.Nat.{ℕ_set}
use native.Mathlib.Omega.{arith}
use gale_lb.Prelude.Tests.{leb, if◌then◌else◌}
use gale_lb.Prelude.Lists.{Occurs, All}

pub sort_insert : ℕ → List ℕ → List ℕ
sort_insert x [] = x ∷ []
sort_insert x (y ∷ ys) = if leb x y then x ∷ y ∷ ys else y ∷ sort_insert x ys

unfoldable pub sort : List ℕ → List ℕ
unfolding sort_insert
sort [] = []
sort (x ∷ xs) = sort_insert x (sort xs)

abbrev pub IsSorted : List ℕ → Type 0
IsSorted [] = Unit {0}
IsSorted (x ∷ xs) = All (λ y. x ≤ y) xs × IsSorted xs

sort_insert-Occurs : (x q : ℕ) (ys : List ℕ) → Occurs q (sort_insert x ys) ↔ ((q ≡ x) ⊎ Occurs q ys)
unfolding sort_insert
sort_insert-Occurs x q [] = ground arith
sort_insert-Occurs x q (y ∷ ys) = ground (arith, sort_insert-Occurs x q ys)

-- Sorting keeps the elements.
pub sort-Occurs : (q : ℕ) (xs : List ℕ) → Occurs q (sort xs) ↔ Occurs q xs
unfolding sort
sort-Occurs q [] = ground arith
sort-Occurs q (x ∷ xs) = ground (arith, sort-Occurs q xs, sort_insert-Occurs x q (sort xs))

sort_insert-All :
    (b x : ℕ) (ys : List ℕ) → b ≤ x → All (λ y. b ≤ y) ys → All (λ y. b ≤ y) (sort_insert x ys)
unfolding sort_insert
sort_insert-All b x [] h a = (h, tt)
sort_insert-All b x (y ∷ ys) h a = ground (arith, sort_insert-All b x ys h)

All-weaken : (b c : ℕ) (ys : List ℕ) → b ≤ c → All (λ y. c ≤ y) ys → All (λ y. b ≤ y) ys
All-weaken b c [] h a = tt
All-weaken b c (y ∷ ys) h (p, a) = (omega arith, All-weaken b c ys h a)

sort_insert-IsSorted : (x : ℕ) (ys : List ℕ) → IsSorted ys → IsSorted (sort_insert x ys)
unfolding sort_insert
sort_insert-IsSorted x [] s = (tt, tt)
sort_insert-IsSorted x (y ∷ ys) (a, s) =
    ground (arith, sort_insert-IsSorted x ys s, sort_insert-All y x ys, All-weaken x y ys, a, s)

pub sort-IsSorted : (xs : List ℕ) → IsSorted (sort xs)
unfolding sort
sort-IsSorted [] = tt
sort-IsSorted (x ∷ xs) = sort_insert-IsSorted x (sort xs) (sort-IsSorted xs)

sort_insert_comm :
    (x y : ℕ) (zs : List ℕ) → sort_insert x (sort_insert y zs) ≡ sort_insert y (sort_insert x zs)
unfolding sort_insert
sort_insert_comm x y [] = ground arith
sort_insert_comm x y (z ∷ zs) = ground (arith, sort_insert_comm x y zs)

sort-perm_data : {xs ys : List ℕ} → Permᴰ xs ys → sort xs ≡ sort ys
unfolding sort
sort-perm_data Permᴰ.nil = refl
sort-perm_data (Permᴰ.cons e p) = ap₂ sort_insert e (sort-perm_data p)
sort-perm_data (Permᴰ.swap {a = a} {b = b} {l = l} e f) =
    sort_insert_comm a b (sort l) ∙ ap₂ (λ x y. sort_insert x (sort_insert y (sort l))) f e
sort-perm_data (Permᴰ.trans p q) = sort-perm_data p ∙ sort-perm_data q

-- The result does not depend on the order in which the elements are given.
pub sort-perm : {xs ys : List ℕ} → Perm xs ys → sort xs ≡ sort ys
sort-perm p = ∥∥₁_elim p (list_set _ _) sort-perm_data
  where
    list_set : IsSet (List ℕ)
    list_set = hlevel ℕ_set
