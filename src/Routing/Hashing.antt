-- ===== src/Routing/Hashing.antt =====
-- pkg/routing/hashing.go. `crc32.ChecksumIEEE` of Go's standard library is written out bit by bit: the
-- register is shifted to the right, and the polynomial, its bits reversed, is added where a one drops out.
pub mod Width
use Prim.Native.Nat.{bit_xor}
use gale_lb.Prelude.{ℕ, zero, suc, ◌-◌, ◌/◌, ◌%◌, ◌^◌, List, [], ◌∷◌, nat_beq, if◌then◌else◌}
use gale_lb.Prelude.Text.{Str}
use gale_lb.Routing.Ring.{Hasher}

-- The IEEE polynomial of package crc32.
abbrev pub ieee : ℕ
ieee = 0xedb88320

abbrev pub all_ones : ℕ
all_ones = 0xffffffff

unfoldable pub crc_shift : ℕ → ℕ
crc_shift crc = if nat_beq (crc % 2) 1 then bit_xor (crc / 2) ieee else crc / 2

unfoldable pub crc_shifts : ℕ → ℕ → ℕ
unfolding crc_shift
crc_shifts zero crc = crc
crc_shifts (suc n) crc = crc_shifts n (crc_shift crc)

-- An entry of the list stands for a byte.
unfoldable pub crc_update : ℕ → Str → ℕ
unfolding crc_shifts
crc_update crc [] = crc
crc_update crc (c ∷ s) = crc_update (crc_shifts 8 (bit_xor crc (c % 2 ^ 8))) s

-- `crc32.ChecksumIEEE(key)`
unfoldable pub crc32_hasher : Hasher
unfolding crc_update
crc32_hasher key = bit_xor (crc_update all_ones key) all_ones
