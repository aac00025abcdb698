-- ===== src/NodeManager/Macs.antt =====
-- How `ReportHealthStatus` of node_manager.go comes by the MAC address of a node: it asks pkg/util/arp.go,
-- first the table of the kernel and then the network.
mod Tests
use gale_lb.Prelude.{
  ◌≡◌, ◌≢◌, refl, ◌∙◌, Option, none, some, List, [], ◌∷◌, map, All, Result, ok, err,
}
use gale_lb.Prelude.Equality.{bytes_beq}
use gale_lb.Prelude.Text.{Str, codes}
use gale_lb.Registry.{NodeRegistry, register_node}
use gale_lb.Util.Arp.{ArpError, ArpNetwork, get_mac_from_arp_cache, get_mac_via_arp_call}
use gale_lb.Util.Arp.Scan.{
  IsWord, Entry, words_of, print_line, header, first_mac, get_mac_from_arp_cache-first_mac,
}
use gale_lb.NodeManager.{
  Network, Peer, tcp, StartError, no_mac, Session, resolve_mac, extract_tcp_from_conn,
  report_health_status,
}

abbrev pub to_option : Result ArpError Str → Option Str
to_option (ok mac) = some mac
to_option (err e) = none

-- The network as the handler sees it, on a table of the kernel and an ARP client.
abbrev pub arp_network :
    ArpNetwork
    → Option (List Str)
    → (TcpAddr : Type 0) → (TcpAddr → Str)
    → (TcpAddr → Str)
    → Network
arp_network arp table addr_type ip_string addr_string = record {
  TcpAddr = addr_type;
  ip_string = ip_string;
  addr_string = addr_string;
  mac_from_arp_cache = λ ip iface. to_option (get_mac_from_arp_cache table ip iface);
  mac_via_arp_call = λ ip iface. to_option (get_mac_via_arp_call arp ip iface);
}

-- The first entry of the table counts, and the network is asked only without one.
abbrev pub entry_or_call : ArpNetwork → Str → Str → List Entry → Option Str
entry_or_call arp ip iface es = elim (to_option (first_mac ip iface es)) [
  | some mac ↦ some mac
  | none ↦ to_option (get_mac_via_arp_call arp ip iface)
]

module _ (arp : ArpNetwork) (TcpAddr : Type 0) (ip_string addr_string : TcpAddr → Str) (iface : Str)
    (registry : NodeRegistry) (addr : TcpAddr) (es : List Entry) where
  -- For a node at an address other than "IP", and a table of the kernel with its header and any entries of
  -- six words each: the node is registered under the address of its connection, with the MAC address of the
  -- first entry for its IP address on the private interface, whatever the flags of that entry; only without
  -- such an entry with what an ARP call finds; and if neither finds one, the stream is refused.
  pub report_health_status-first_mac :
      ip_string addr ≢ codes "IP"
      → All (λ e. All (λ w. IsWord w.0) (words_of e)) es
      → report_health_status
          (arp_network arp
            (some (header ∷ map (λ e. print_line (words_of e)) es))
            TcpAddr
            ip_string
            addr_string)
          (some (tcp (some addr)))
          iface
          registry
        ≡ elim (entry_or_call arp (ip_string addr) iface es) [
          | none ↦ err no_mac
          | some mac ↦ ok (record {
            node_key = addr_string addr;
            mac = mac;
            registry = register_node registry (addr_string addr);
          })
        ]
  unfolding report_health_status extract_tcp_from_conn resolve_mac get_mac_from_arp_cache bytes_beq
  report_health_status-first_mac other good =
      rw (get_mac_from_arp_cache-first_mac (ip_string addr) iface es other good) refl
