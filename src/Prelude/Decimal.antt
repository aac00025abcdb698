-- ===== src/Prelude/Decimal.antt =====
-- `%d` of Go's fmt: the decimal print of a number, and why two prints in a row can be told apart.
use mathlib.Core.Path.{◌≡◌, refl, sym, ap, subst, ◌∙◌}
use mathlib.Core.Logic.{◌≢◌, inl, inr}
use mathlib.Core.List.{[], ◌∷◌, ◌++◌}
use Prim.Native.Nat.{ℕ, zero, suc, ◌+◌, ◌-◌, ◌*◌, ◌/◌, ◌%◌, ◌≤◌, ◌<◌}
use native.Mathlib.Omega.{arith}
use gale_lb.Prelude.Tests.{ltb, if◌then◌else◌, Bool-cases}
use gale_lb.Prelude.Lists.{All, All-append}
use gale_lb.Prelude.Text.{Str}
use gale_lb.Prelude.Int.{ℤ, pos, negsuc}

-- The last digit is written behind the others; `n + 1` rounds are more than the digits of `n`.
digits : ℕ → ℕ → Str
digits zero n = []
digits (suc fuel) n =
    let front = digits fuel (n / 10) in
    if ltb n 10 then (b'0' + n) ∷ [] else front ++ (b'0' + n % 10) ∷ []

unfoldable pub print_nat : ℕ → Str
unfolding digits
print_nat n = digits (suc n) n

unfoldable pub print_int : ℤ → Str
unfolding print_nat
print_int (pos n) = print_nat n
print_int (negsuc n) = b'-' ∷ print_nat (suc n)

-- The number that digits spell behind `acc`.
value : ℕ → Str → ℕ
value acc [] = acc
value acc (c ∷ s) = value (acc * 10 + (c - b'0')) s

value-append : (acc : ℕ) (s t : Str) → value acc (s ++ t) ≡ value (value acc s) t
unfolding value
value-append acc [] t = refl
value-append acc (c ∷ s) t = value-append (acc * 10 + (c - b'0')) s t

value-digits : (fuel n : ℕ) → n < fuel → value 0 (digits fuel n) ≡ n
unfolding digits value
value-digits zero n h = elim h [ ]
value-digits (suc fuel) n h = elim (Bool-cases (ltb n 10)) [
  | inl small ↦ rw small (omega arith)
  | inr large ↦ rw (large, value-append, value-digits fuel (n / 10) (ground arith)) (omega arith)
]

pub print_nat_injective : (m n : ℕ) → print_nat m ≡ print_nat n → m ≡ n
unfolding print_nat
print_nat_injective m n e =
    sym (value-digits (suc m) m (omega arith))
    ∙ ap (value 0) e
    ∙ value-digits (suc n) n (omega arith)

abbrev pub IsDigit : ℕ → Type 0
IsDigit c = (b'0' ≤ c) × (c ≤ b'9')

digits-IsDigit : (fuel n : ℕ) → All IsDigit (digits fuel n)
unfolding digits
digits-IsDigit zero n = tt
digits-IsDigit (suc fuel) n = elim (Bool-cases (ltb n 10)) [
  | inl small ↦ rw small (ground arith)
  | inr large ↦ rw large (All-append IsDigit _ _ (digits-IsDigit fuel (n / 10)) (ground arith))
]

pub print_nat-IsDigit : (n : ℕ) → All IsDigit (print_nat n)
unfolding print_nat
print_nat-IsDigit n = digits-IsDigit (suc n) n

abbrev pub Lacks : ℕ → Str → Type 0
Lacks sep = All (λ c. c ≢ sep)

-- A text of digits holds no byte that is not a digit.
pub IsDigit-Lacks : (sep : ℕ) (s : Str) → ¬ IsDigit sep → All IsDigit s → Lacks sep s
IsDigit-Lacks sep [] h d = tt
IsDigit-Lacks sep (c ∷ s) h (d, ds) = (λ e. h (subst IsDigit e d), IsDigit-Lacks sep s h ds)

pub print_nat-Lacks : (sep n : ℕ) → ¬ IsDigit sep → Lacks sep (print_nat n)
print_nat-Lacks sep n h = IsDigit-Lacks sep (print_nat n) h (print_nat-IsDigit n)

-- The text in front of the first separator, and the text behind it, are determined.
pub cut_first :
    (sep : ℕ) (xs ys us vs : Str)
    → Lacks sep xs
    → Lacks sep ys
    → xs ++ sep ∷ us ≡ ys ++ sep ∷ vs
    → (xs ≡ ys) × (us ≡ vs)
cut_first sep [] [] us vs hx hy e = ground arith
cut_first sep [] (y ∷ ys) us vs hx hy e = ground arith
cut_first sep (x ∷ xs) [] us vs hx hy e = ground arith
cut_first sep (x ∷ xs) (y ∷ ys) us vs (_, hx) (_, hy) e =
    ground (arith, cut_first sep xs ys us vs hx hy)

not_cut : (sep : ℕ) (ys vs s : Str) → Lacks sep s → s ≢ ys ++ sep ∷ vs
not_cut sep [] vs [] h e = cc
not_cut sep [] vs (c ∷ s) h e = h.0 (ground arith)
not_cut sep (y ∷ ys) vs [] h e = cc
not_cut sep (y ∷ ys) vs (c ∷ s) h e = not_cut sep ys vs s h.1 (ground arith)

-- So are those of the last separator.
pub cut_last :
    (sep : ℕ) (xs ys us vs : Str)
    → Lacks sep us
    → Lacks sep vs
    → xs ++ sep ∷ us ≡ ys ++ sep ∷ vs
    → (xs ≡ ys) × (us ≡ vs)
cut_last sep [] [] us vs hx hy e = ground arith
cut_last sep [] (y ∷ ys) us vs ha hb e = absurd (not_cut sep ys vs us ha (ground arith))
cut_last sep (x ∷ xs) [] us vs ha hb e = absurd (not_cut sep xs us vs hb (ground arith))
cut_last sep (x ∷ xs) (y ∷ ys) us vs ha hb e = ground (arith, cut_last sep xs ys us vs ha hb)

-- A print of an integer holds digits and dashes only.
pub print_int-Lacks : (sep : ℕ) (n : ℤ) → ¬ IsDigit sep → b'-' ≢ sep → Lacks sep (print_int n)
unfolding print_int
print_int-Lacks sep (pos n) h d = print_nat-Lacks sep n h
print_int-Lacks sep (negsuc n) h d = (d, print_nat-Lacks sep (suc n) h)

not-IsDigit_dash : ¬ IsDigit b'-'
not-IsDigit_dash h = omega arith

starts_digit : (n : ℕ) (s : Str) → All IsDigit (print_nat n) → print_nat n ≢ b'-' ∷ s
starts_digit n s d e = not-IsDigit_dash (subst (All IsDigit) e d).0

pub print_int_injective : (m n : ℤ) → print_int m ≡ print_int n → m ≡ n
unfolding print_int
print_int_injective (pos m) (pos n) e = ap pos (print_nat_injective m n e)
print_int_injective (pos m) (negsuc n) e = absurd (starts_digit m _ (print_nat-IsDigit m) e)
print_int_injective (negsuc m) (pos n) e = absurd (starts_digit n _ (print_nat-IsDigit n) (sym e))
print_int_injective (negsuc m) (negsuc n) e =
    let tails : print_nat (suc m) ≡ print_nat (suc n) = ground arith in
    let same = print_nat_injective (suc m) (suc n) tails in ground arith
