-- ===== src/Util/Addresses/Tests.antt =====
-- The theorem on util.go at an interface with an IPv6 address in front of its IPv4 one.
use gale_lb.Prelude.{◌≡◌, ◌↔◌, refl, List, [], ◌∷◌, none, some, ok}
use gale_lb.Prelude.Text.{codes}
use gale_lb.Util.Ip.{ipv4}
use gale_lb.Util.Addresses.{Addr, ip_net, ip_addr, other, Interfaces, get_ipv4_from_interface}
use gale_lb.Util.Addresses.First.{IsFirst, get_ipv4_from_interface_iff}

abbrev listed : List Addr
listed =
    other
    ∷ ip_net (0xfe ∷ 0x80 ∷ 0 ∷ 0 ∷ 0 ∷ 0 ∷ 0 ∷ 0 ∷ 0 ∷ 1 ∷ 0 ∷ 0 ∷ 0 ∷ 0 ∷ 0x12 ∷ 0x3a ∷ [])
    ∷ ip_net (ipv4 10 0 0 7)
    ∷ ip_addr (ipv4 10 0 0 8)
    ∷ []

abbrev machine : Interfaces
machine = record {
  Interface = Unit {0};
  parse_ip = λ s. none;
  interface_by_name = λ name. some tt;
  addrs = λ iface. some listed;
}

get_ipv4_from_interface_iff_example :
    (get_ipv4_from_interface machine (codes "eth0") ≡ ok (codes "10.0.0.7"))
    ↔ IsFirst (codes "10.0.0.7") listed
get_ipv4_from_interface_iff_example =
    get_ipv4_from_interface_iff machine (codes "eth0") (codes "10.0.0.7") tt listed refl refl
