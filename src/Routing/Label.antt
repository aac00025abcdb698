-- ===== src/Routing/Label.antt =====
-- pkg/common/common.go, and the texts that ring.go hashes and returns.
use gale_lb.Prelude.{ℕ, ◌≡◌, ◌∷◌, ◌++◌, arith, All-append}
use gale_lb.Prelude.Text.{Str}
use gale_lb.Prelude.Decimal.{
  print_nat, print_nat_injective, print_nat-Lacks, IsDigit, Lacks, cut_first,
}

-- `ip` stands for a uint32, `port` and `pad` for a uint16.
pub record AddrKey : Type 0 where
  pub ip : ℕ
  pub port : ℕ
  pub pad : ℕ

-- The value that a read of a missing key yields.
abbrev pub zero_addr : AddrKey
zero_addr = record { ip = 0; port = 0; pad = 0 }

-- `fmt.Sprintf("%d:%d", addr.IP, addr.Port)`
unfoldable pub addr_to_string : AddrKey → Str
unfolding print_nat
addr_to_string a = print_nat a.ip ++ (b':' ∷ print_nat a.port)

-- `fmt.Sprintf("%s-%d", addrToString(node), i)`
unfoldable pub virtual_label : AddrKey → ℕ → Str
unfolding addr_to_string
virtual_label a i = addr_to_string a ++ (b'-' ∷ print_nat i)

not-IsDigit_colon : ¬ IsDigit b':'
not-IsDigit_colon h = omega arith

not-IsDigit_dash : ¬ IsDigit b'-'
not-IsDigit_dash h = omega arith

-- Two nodes have the same text only if address and port agree.
addr_to_string_injective :
    (a b : AddrKey) → addr_to_string a ≡ addr_to_string b → (a.ip ≡ b.ip) × (a.port ≡ b.port)
unfolding addr_to_string
addr_to_string_injective a b e =
    let (ips, ports) =
      cut_first b':' (print_nat a.ip) (print_nat b.ip) (print_nat a.port) (print_nat b.port)
        (print_nat-Lacks b':' a.ip not-IsDigit_colon) (print_nat-Lacks b':' b.ip not-IsDigit_colon)
        e in
    (print_nat_injective a.ip b.ip ips, print_nat_injective a.port b.port ports)

addr_to_string-Lacks : (a : AddrKey) → Lacks b'-' (addr_to_string a)
unfolding addr_to_string
addr_to_string-Lacks a =
    All-append _ (print_nat a.ip) _ (print_nat-Lacks b'-' a.ip not-IsDigit_dash)
      (omega arith, print_nat-Lacks b'-' a.port not-IsDigit_dash)

-- Two virtual nodes are hashed from the same text only if address, port and number agree.
virtual_label_injective :
    (a b : AddrKey) (i j : ℕ)
    → virtual_label a i ≡ virtual_label b j
    → (a.ip ≡ b.ip) × (a.port ≡ b.port) × (i ≡ j)
unfolding virtual_label
virtual_label_injective a b i j e =
    let (texts, rounds) =
      cut_first b'-' (addr_to_string a) (addr_to_string b) (print_nat i) (print_nat j)
        (addr_to_string-Lacks a) (addr_to_string-Lacks b) e in
    let (ips, ports) = addr_to_string_injective a b texts in
    (ips, ports, print_nat_injective i j rounds)
