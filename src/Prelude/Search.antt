-- ===== src/Prelude/Search.antt =====
-- `sort.Search(n, f)`: binary search for the least index at which `f` holds.
use mathlib.Core.Path.{◌≡◌}
use mathlib.Core.Logic.{inl, inr}
use mathlib.Core.Bool.{Bool, true, false}
use Prim.Native.Nat.{ℕ, zero, suc, ◌+◌, ◌/◌, ◌≤◌, ◌<◌}
use native.Mathlib.Decide.{dec_lt}
use native.Mathlib.Omega.{arith}
use gale_lb.Prelude.Tests.{ltb, if◌then◌else◌, Bool-cases}

-- `for i < j { h := (i+j)>>1; if !f(h) { i = h+1 } else { j = h } }`, on fuel.
search_loop : ℕ → (ℕ → Bool) → ℕ → ℕ → ℕ
search_loop zero f i j = i
search_loop (suc fuel) f i j =
    let h = (i + j) / 2 in
    let right = search_loop fuel f (h + 1) j in
    let left = search_loop fuel f i h in if ltb i j then if f h then left else right else i

-- The range shrinks in each round, so `n` rounds are enough.
unfoldable pub search : ℕ → (ℕ → Bool) → ℕ
unfolding search_loop
search n f = search_loop n f 0 n

-- `r` splits the indices below `n` into those where `f` fails and those where it holds.
pub record Splits (n : ℕ) (f : ℕ → Bool) (r : ℕ) : Type 0 where
  pub inside : r ≤ n
  pub below : (k : ℕ) → k < r → f k ≡ false
  pub above : (k : ℕ) → r ≤ k → k < n → f k ≡ true

abbrev pub IsMonotone : ℕ → (ℕ → Bool) → Type 0
IsMonotone n f = (a b : ℕ) → a ≤ b → b < n → f a ≡ true → f b ≡ true

module _ (n : ℕ) (f : ℕ → Bool) (mono : IsMonotone n f) where
  below_mid : (h : ℕ) → h < n → f h ≡ false → (k : ℕ) → k < h + 1 → f k ≡ false
  below_mid h hn e k lt = elim (Bool-cases (f k)) [
    | inl t ↦ ground (arith, mono k h (omega arith) hn t)
    | inr t ↦ t
  ]

  search_loop-Splits :
      (fuel i j : ℕ)
      → j ≤ i + fuel
      → i ≤ j
      → j ≤ n
      → ((k : ℕ) → k < i → f k ≡ false)
      → ((k : ℕ) → j ≤ k → k < n → f k ≡ true)
      → Splits n f (search_loop fuel f i j)
  unfolding search_loop
  search_loop-Splits zero i j room le jn lo hi = record {
    inside = omega arith;
    below = lo;
    above = λ k ik kn. hi k (omega arith) kn;
  }
  search_loop-Splits (suc fuel) i j room le jn lo hi = elim (Bool-cases (ltb i j)) [
    | inr done ↦
        rw done
          (record { inside = omega arith; below = lo; above = λ k ik kn. hi k (ground arith) kn })
    | inl more ↦ rw more (elim (Bool-cases (f ((i + j) / 2))) [
      | inl t ↦ rw t (
          search_loop-Splits fuel i ((i + j) / 2) (ground arith) (ground arith) (ground arith) lo
            (λ k hk kn. mono ((i + j) / 2) k hk kn t))
      | inr t ↦ rw t (
          search_loop-Splits fuel ((i + j) / 2 + 1) j (ground arith) (ground arith) jn
            (below_mid ((i + j) / 2) (ground arith) t) hi)
    ])
  ]

  -- On a test that stays true once it holds, binary search finds where it begins to hold.
  pub search-Splits : Splits n f (search n f)
  unfolding search
  search-Splits =
      search_loop-Splits n 0 n (omega arith) (omega arith) (omega arith)
        (λ k lt. absurd (omega arith)) (λ k nk kn. absurd (omega arith))

Splits-disagree : (n : ℕ) (f : ℕ → Bool) (r s : ℕ) → Splits n f r → Splits n f s → ¬ (r < s)
Splits-disagree n f r s p q lt =
    let holds = p.above r (omega arith) (omega (arith, q.inside)) in let fails = q.below r lt in cc

-- There is one such index.
pub Splits-unique : (n : ℕ) (f : ℕ → Bool) (r s : ℕ) → Splits n f r → Splits n f s → r ≡ s
Splits-unique n f r s p q = elim (dec_lt r s) [
  | yes lt ↦ absurd (Splits-disagree n f r s p q lt)
  | no ge ↦ elim (dec_lt s r) [
    | yes lt ↦ absurd (Splits-disagree n f s r q p lt)
    | no le ↦ omega arith
  ]
]
