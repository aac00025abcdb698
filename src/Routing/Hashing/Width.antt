-- ===== src/Routing/Hashing/Width.antt =====
-- The checksum of hashing.go is a uint32.
use Prim.Native.Nat.{bit_xor, digits, differ, bit_xor-bitwise}
use native.Mathlib.Nat.{pow-suc}
use gale_lb.Prelude.{ℕ, zero, suc, ◌/◌, ◌%◌, ◌^◌, ◌<◌, ◌≤◌, ◌≡◌, refl, [], ◌∷◌, arith}
use gale_lb.Prelude.Text.{Str, codes}
use gale_lb.Routing.Ring.Clockwise.{u32_mod}
use gale_lb.Routing.Hashing.{ieee, all_ones, crc_shift, crc_shifts, crc_update, crc32_hasher}

-- The check value of the IEEE polynomial.
check_value : crc32_hasher (codes "123456789") ≡ 0xcbf43926
unfolding crc32_hasher
check_value = refl

differ-le-one : (x y : ℕ) → x ≤ 1 → y ≤ 1 → differ x y ≤ 1
differ-le-one zero y p q = q
differ-le-one (suc zero) zero p q = p
differ-le-one (suc zero) (suc zero) p q = omega arith
differ-le-one (suc zero) (suc (suc y)) p q = absurd (omega arith)
differ-le-one (suc (suc x)) y p q = absurd (omega arith)

digits-differ-lt : (k n a b : ℕ) → a < 2 ^ k → b < 2 ^ k → digits (λ y. y) differ n a b < 2 ^ k
digits-differ-lt k zero a b p q = q
digits-differ-lt k (suc n) zero b p q = q
digits-differ-lt zero (suc n) (suc a) b p q = absurd (omega arith)
digits-differ-lt (suc k) (suc n) (suc a) b p q = omega (
  arith,
  pow-suc 2 k,
  digits-differ-lt k n (suc a / 2) (b / 2) (omega (arith, pow-suc 2 k))
      (omega (arith, pow-suc 2 k)),
  differ-le-one (suc a % 2) (b % 2) (omega arith) (omega arith),
)

bit_xor-lt : (k a b : ℕ) → a < 2 ^ k → b < 2 ^ k → bit_xor a b < 2 ^ k
bit_xor-lt k a b p q = rw (bit_xor-bitwise a b) (digits-differ-lt k a a b p q)

crc_shift-lt : (crc : ℕ) → crc < u32_mod → crc_shift crc < u32_mod
unfolding crc_shift
crc_shift-lt crc h = ground (arith, bit_xor-lt 32 (crc / 2) ieee (omega arith) (omega arith))

crc_shifts-lt : (n crc : ℕ) → crc < u32_mod → crc_shifts n crc < u32_mod
unfolding crc_shifts
crc_shifts-lt zero crc h = h
crc_shifts-lt (suc n) crc h = crc_shifts-lt n (crc_shift crc) (crc_shift-lt crc h)

crc_update-lt : (crc : ℕ) (s : Str) → crc < u32_mod → crc_update crc s < u32_mod
unfolding crc_update
crc_update-lt crc [] h = h
crc_update-lt crc (c ∷ s) h =
    crc_update-lt (crc_shifts 8 (bit_xor crc (c % 2 ^ 8))) s
      (crc_shifts-lt 8 (bit_xor crc (c % 2 ^ 8)) (bit_xor-lt 32 crc (c % 2 ^ 8) h (omega arith)))

-- The checksum of any key is below 2 ^ 32, the modulus of the ring, so that it is the uint32 that the
-- ring sorts.
pub crc32_hasher-lt : (key : Str) → crc32_hasher key < u32_mod
unfolding crc32_hasher
crc32_hasher-lt key =
    bit_xor-lt 32 (crc_update all_ones key) all_ones (crc_update-lt all_ones key (omega arith))
      (omega arith)
