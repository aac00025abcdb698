-- ===== src/Util/Addresses.antt =====
-- pkg/util/util.go. Package net's lookups are parameters.
pub mod First
mod Tests
use gale_lb.Prelude.{List, [], ◌∷◌, Option, none, some, Bool, Result, ok, err}
use gale_lb.Prelude.Text.{Str}
use gale_lb.Util.Ip.{Ip, to4, ip_string}

-- The address of an interface, by its dynamic type; other types leave the local `ip` nil.
pub data Addr : Type 0 where
  ip_net ip_addr : Ip → Addr
  other : Addr

pub data AddressError : Type 0 where
  no_interface no_addresses no_ipv4 : AddressError

pub record Interfaces : Type 1 where
  pub Interface : Type 0
  -- net.ParseIP
  pub parse_ip : Str → Option Ip
  pub interface_by_name : Str → Option Interface
  pub addrs : Interface → Option (List Addr)

abbrev pub ip_of : Addr → Ip
ip_of (ip_net ip) = ip
ip_of (ip_addr ip) = ip
ip_of other = []

-- The loop over the addresses.
unfoldable pub first_ipv4 : List Addr → Result AddressError Str
unfolding to4 ip_string
first_ipv4 [] = err no_ipv4
first_ipv4 (addr ∷ addrs) = elim (to4 (ip_of addr)) [
  | some _ ↦ ok (ip_string (ip_of addr))
  | none ↦ first_ipv4 addrs
]

module _ (net : Interfaces) where
  unfoldable pub is_valid_ip : Str → Bool
  is_valid_ip input = elim (net.parse_ip input) [ none ↦ Bool.false | some ip ↦ Bool.true ]

  unfoldable pub get_ipv4_from_interface : Str → Result AddressError Str
  unfolding first_ipv4
  get_ipv4_from_interface iface_name = elim (net.interface_by_name iface_name) [
    | none ↦ err no_interface
    | some iface ↦ elim (net.addrs iface) [
      | none ↦ err no_addresses
      | some addrs ↦ first_ipv4 addrs
    ]
  ]
