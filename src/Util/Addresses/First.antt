-- ===== src/Util/Addresses/First.antt =====
-- Which address util.go picks.
use gale_lb.Prelude.{
  ◌≡◌, ◌↔◌, refl, sym, ap, ◌∙◌, inl, inr, List, [], ◌∷◌, ◌++◌, none, some, arith, All, ok,
  Option-cases,
}
use gale_lb.Prelude.Equality.{bytes_beq}
use gale_lb.Prelude.Text.{Str, codes}
use gale_lb.Util.Ip.{Ip, ipv4, to4, dotted, ip_string}
use gale_lb.Util.Addresses.{Addr, ip_of, first_ipv4, Interfaces, get_ipv4_from_interface}

ipv4_text : ip_string (ipv4 10 0 0 7) ≡ codes "10.0.0.7"
unfolding ip_string bytes_beq
ipv4_text = refl

ipv6_text :
    ip_string (0xfe ∷ 0x80 ∷ 0 ∷ 0 ∷ 0 ∷ 0 ∷ 0 ∷ 0 ∷ 0 ∷ 1 ∷ 0 ∷ 0 ∷ 0 ∷ 0 ∷ 0x12 ∷ 0x3a ∷ [])
    ≡ codes "fe80::1:0:0:123a"
unfolding ip_string bytes_beq
ipv6_text = refl

ip_string-to4 : (ip four : Ip) → to4 ip ≡ some four → ip_string ip ≡ dotted four
unfolding ip_string
ip_string-to4 [] four e = absurd (cc)
ip_string-to4 (n ∷ rest) four e = rw (ip_string, e) refl

-- The text is that of an IPv4 address, and all addresses in front of it have none.
abbrev pub IsFirst : Str → List Addr → Type 0
IsFirst text addrs =
    (before : List Addr) × (a : Addr) × (after : List Addr) × (four : Ip) × (addrs
      ≡ before ++ a ∷ after)
    × All (λ b. to4 (ip_of b) ≡ none) before
    × (to4 (ip_of a) ≡ some four)
    × (text ≡ dotted four)

first_ipv4_sound :
    (addrs : List Addr) (text : Str) → first_ipv4 addrs ≡ ok text → IsFirst text addrs
unfolding first_ipv4
first_ipv4_sound [] text e = absurd (cc)
first_ipv4_sound (a ∷ addrs) text e = elim (Option-cases (to4 (ip_of a))) [
  | inr (four, found) ↦
      let same : text ≡ ip_string (ip_of a) = ground arith in
      ([], a, addrs, four, refl, tt, found, same ∙ ip_string-to4 (ip_of a) four found)
  | inl missing ↦
      let (before, b, after, four, split, none_before, found, same) =
        first_ipv4_sound addrs text (ground arith) in
      (a ∷ before, b, after, four, ap (λ x. a ∷ x) split, (missing, none_before), found, same)
]

first_ipv4_complete :
    (before : List Addr) (a : Addr) (after : List Addr) (four : Ip)
    → All (λ b. to4 (ip_of b) ≡ none) before
    → to4 (ip_of a) ≡ some four
    → first_ipv4 (before ++ a ∷ after) ≡ ok (dotted four)
unfolding first_ipv4
first_ipv4_complete [] a after four h found =
    rw (first_ipv4, found) (ap ok (ip_string-to4 (ip_of a) four found))
first_ipv4_complete (b ∷ before) a after four (missing, h) found =
    rw (first_ipv4, missing) (first_ipv4_complete before a after four h found)

-- If the interface and its addresses are found, its address is a text exactly if the text is the dotted
-- form of the first of the addresses that is an IPv4 one, whether it has 4 bytes or 16.
pub get_ipv4_from_interface_iff :
    (net : Interfaces) (iface_name text : Str) (iface : net.Interface) (addrs : List Addr)
    → net.interface_by_name iface_name ≡ some iface
    → net.addrs iface ≡ some addrs
    → (get_ipv4_from_interface net iface_name ≡ ok text) ↔ IsFirst text addrs
unfolding get_ipv4_from_interface
get_ipv4_from_interface_iff net iface_name text iface addrs found listed = (
  λ e. first_ipv4_sound addrs text (ground arith),
  λ (before, a, after, four, split, none_before, is4, same).
      rw (get_ipv4_from_interface, found, listed)
        (ap first_ipv4 split
          ∙ first_ipv4_complete before a after four none_before is4
          ∙ ap ok (sym same)),
)
