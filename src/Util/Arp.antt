-- ===== src/Util/Arp.antt =====
-- pkg/util/arp.go. The lines of /proc/net/arp, as the scanner delivers them, and the calls of packages
-- net, netip and arp are parameters.
pub mod Scan
use gale_lb.Prelude.{
  ℕ, List, [], ◌∷◌, ◌++◌, Option, none, some, Bool, ◌&&◌, ◌||◌, nat_beq, ltb, length, get_elem?,
  if◌then◌else◌, Result, ok, err,
}
use gale_lb.Prelude.Equality.{◌==◌, bytes_eq}
use gale_lb.Prelude.Text.{Str}

abbrev pub ip_idx_arp_cache_field : ℕ
ip_idx_arp_cache_field = 0

abbrev pub mac_idx_arp_cache_field : ℕ
mac_idx_arp_cache_field = 3

abbrev pub iface_idx_arp_cache_field : ℕ
iface_idx_arp_cache_field = 5

abbrev pub max_arp_cache_fields : ℕ
max_arp_cache_fields = 6

pub data ArpError : Type 0 where
  open_failed : ArpError
  not_found : Str → Str → ArpError
  no_interface dial_failed invalid_ip resolve_failed : ArpError

-- unicode.IsSpace, for ASCII: the tab and the four codes behind it, and the blank.
unfoldable pub is_space : ℕ → Bool
is_space c = nat_beq c 32 || (ltb 8 c && ltb c 14)

-- A word ends.
unfoldable pub flush : Str → List Str → List Str
flush [] words = words
flush (c ∷ word) words = (c ∷ word) ∷ words

-- `strings.Fields`: the words of a text, of which `word` has been read in part.
unfoldable pub fields_from : Str → Str → List Str
unfolding is_space flush
fields_from word [] = flush word []
fields_from word (c ∷ s) = elim (is_space c) [
  | Bool.true ↦ flush word (fields_from [] s)
  | Bool.false ↦ fields_from (word ++ c ∷ []) s
]

unfoldable pub fields : Str → List Str
unfolding fields_from
fields s = fields_from [] s

-- A field of a line that has it.
abbrev pub field : List Str → ℕ → Str
field words i = elim (get_elem? words i) [ none ↦ [] | some word ↦ word ]

-- The loop over the lines.
unfoldable pub scan : Str → Str → List Str → Result ArpError Str
unfolding fields
scan ip iface_name [] = err (not_found ip iface_name)
scan ip iface_name (line ∷ lines) =
    let words = fields line in
    let rest = scan ip iface_name lines in
    if ltb (length words) max_arp_cache_fields
    then rest
    else if (field words ip_idx_arp_cache_field == ip)
        && (field words iface_idx_arp_cache_field == iface_name)
    then ok (field words mac_idx_arp_cache_field)
    else rest

-- `none` is a file that cannot be opened.
unfoldable pub get_mac_from_arp_cache : Option (List Str) → Str → Str → Result ArpError Str
unfolding scan
get_mac_from_arp_cache none ip iface_name = err open_failed
get_mac_from_arp_cache (some lines) ip iface_name = scan ip iface_name lines

-- The calls by which an address is asked for on the network.
pub record ArpNetwork : Type 1 where
  pub Interface : Type 0
  pub Conn : Type 0
  pub Addr : Type 0
  pub interface_by_name : Str → Option Interface
  pub dial : Interface → Option Conn
  pub parse_addr : Str → Option Addr
  -- conn.Resolve, and the String of the address
  pub resolve : Conn → Addr → Option Str

unfoldable pub get_mac_via_arp_call : ArpNetwork → Str → Str → Result ArpError Str
get_mac_via_arp_call net ip iface_name = elim (net.interface_by_name iface_name) [
  | none ↦ err no_interface
  | some iface ↦ elim (net.dial iface) [
    | none ↦ err dial_failed
    | some conn ↦ elim (net.parse_addr ip) [
      | none ↦ err invalid_ip
      | some target_ip ↦ elim (net.resolve conn target_ip) [
        | none ↦ err resolve_failed
        | some mac ↦ ok mac
      ]
    ]
  ]
]
