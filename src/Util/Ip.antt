-- ===== src/Util/Ip.antt =====
-- Package net's `IP`, a slice of 4 or of 16 bytes, with what the code uses of it: `net.IPv4`, `To4` and
-- `String`. The nil slice is the empty list.
use gale_lb.Prelude.{
  ℕ, ◌+◌, ◌-◌, ◌*◌, ◌/◌, ◌%◌, List, [], ◌∷◌, ◌++◌, Option, none, some, ◌&&◌, ltb, leb, nat_beq,
  length, take, drop, replicate, if◌then◌else◌,
}
use gale_lb.Prelude.Equality.{◌==◌, bytes_eq}
use gale_lb.Prelude.Text.{Str, codes}
use gale_lb.Prelude.Decimal.{print_nat}

abbrev pub Ip : Type 0
Ip = List ℕ

-- What stands in front of an IPv4 address in the form of 16 bytes.
abbrev pub v4_in_v6_prefix : List ℕ
v4_in_v6_prefix = replicate 10 0 ++ 255 ∷ 255 ∷ []

-- net.IPv4
abbrev pub ipv4 : ℕ → ℕ → ℕ → ℕ → Ip
ipv4 a b c d = v4_in_v6_prefix ++ a ∷ b ∷ c ∷ d ∷ []

unfoldable pub to4 : Ip → Option Ip
to4 ip =
    if nat_beq (length ip) 4
    then some ip
    else if nat_beq (length ip) 16 && (take 12 ip == v4_in_v6_prefix)
    then some (drop 12 ip)
    else none

-- The numbers of a list with dots between them.
unfoldable pub dotted : List ℕ → Str
unfolding print_nat
dotted [] = []
dotted (n ∷ []) = print_nat n
dotted (n ∷ m ∷ rest) = print_nat n ++ (b'.' ∷ dotted (m ∷ rest))

abbrev pub hex_digit : ℕ → ℕ
hex_digit d = if ltb d 10 then b'0' + d else b'a' + d - 10

-- A number below 2 ^ 16, with no zero in front.
unfoldable pub print_hex : ℕ → Str
print_hex n =
    if ltb n 16
    then hex_digit n ∷ []
    else if ltb n 256
    then hex_digit (n / 16) ∷ hex_digit (n % 16) ∷ []
    else if ltb n 4096
    then hex_digit (n / 256) ∷ hex_digit (n / 16 % 16) ∷ hex_digit (n % 16) ∷ []
    else hex_digit (n / 4096)
      ∷ hex_digit (n / 256 % 16)
      ∷ hex_digit (n / 16 % 16)
      ∷ hex_digit (n % 16)
      ∷ []

-- The groups of 16 bits.
unfoldable pub groups : List ℕ → List ℕ
groups (hi ∷ lo ∷ rest) = (hi * 256 + lo) ∷ groups rest
groups _ = []

-- How many zeros a list begins with.
unfoldable pub zeros : List ℕ → ℕ
zeros [] = 0
zeros (n ∷ rest) = let more = zeros rest in if nat_beq n 0 then more + 1 else 0

-- The first of the longest runs of zeros from the index `i` on, against the best one so far: its start
-- and its length. A run is of two groups at least.
unfoldable pub longest_run : ℕ → ℕ × ℕ → List ℕ → ℕ × ℕ
unfolding zeros
longest_run i best [] = best
longest_run i best (n ∷ rest) =
    let run = zeros (n ∷ rest) in
    longest_run (i + 1) (if leb 2 run && ltb best.1 run then (i, run) else best) rest

-- The groups with colons between them.
unfoldable pub colons : List ℕ → Str
unfolding print_hex
colons [] = []
colons (n ∷ []) = print_hex n
colons (n ∷ m ∷ rest) = print_hex n ++ (b':' ∷ colons (m ∷ rest))

unfoldable pub print_v6 : List ℕ → Str
unfolding longest_run colons
print_v6 gs =
    let best = longest_run 0 (0, 0) gs in
    if nat_beq best.1 0
    then colons gs
    else colons (take best.0 gs) ++ (b':' ∷ b':' ∷ colons (drop (best.0 + best.1) gs))

unfoldable pub hex_bytes : List ℕ → Str
hex_bytes [] = []
hex_bytes (n ∷ rest) = hex_digit (n / 16 % 16) ∷ hex_digit (n % 16) ∷ hex_bytes rest

-- `String`
unfoldable pub ip_string : Ip → Str
unfolding to4 dotted groups print_v6 hex_bytes
ip_string [] = codes "<nil>"
ip_string (n ∷ rest) = elim (to4 (n ∷ rest)) [
  | some four ↦ dotted four
  | none ↦
      if nat_beq (length (n ∷ rest)) 16
      then print_v6 (groups (n ∷ rest))
      else b'?' ∷ hex_bytes (n ∷ rest)
]
