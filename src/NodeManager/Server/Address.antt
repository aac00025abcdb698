-- ===== src/NodeManager/Server/Address.antt =====
-- Where the server of node_manager_server.go can be reached.
use gale_lb.Prelude.{◌≡◌, inl, inr, List, ◌∷◌, ◌++◌, some, arith, ok, Option-cases, Result-cases}
use gale_lb.Prelude.Text.{Str}
use gale_lb.Prelude.Decimal.{print_int}
use gale_lb.Util.Addresses.{Addr, Interfaces, get_ipv4_from_interface}
use gale_lb.Util.Addresses.First.{IsFirst, get_ipv4_from_interface_iff}
use gale_lb.Node.Client.{Grpc, remote_server}
use gale_lb.NodeManager.Server.{Server, Sockets, serving, listen_and_serve, start}

-- The interface is there, and `text` is its first IPv4 address.
abbrev pub IsAddressOf : Interfaces → Str → Str → Type 0
IsAddressOf net iface_name text =
    (iface : net.Interface) × (addrs : List Addr) × (net.interface_by_name iface_name ≡ some iface)
    × (net.addrs iface ≡ some addrs)
    × IsFirst text addrs

ok-IsAddressOf :
    (net : Interfaces) (iface_name text : Str)
    → get_ipv4_from_interface net iface_name ≡ ok text
    → IsAddressOf net iface_name text
unfolding get_ipv4_from_interface
ok-IsAddressOf net iface_name text e = elim (Option-cases (net.interface_by_name iface_name)) [
  | inl missing ↦ absurd (ground arith)
  | inr (iface, found) ↦ elim (Option-cases (net.addrs iface)) [
    | inl missing ↦ absurd (ground arith)
    | inr (addrs, listed) ↦ (
      iface,
      addrs,
      found,
      listed,
      (get_ipv4_from_interface_iff net iface_name text iface addrs found listed).0 e,
    )
  ]
]

served_at :
    (net : Interfaces) (sockets : Sockets) (at address : Str)
    → listen_and_serve net sockets at ≡ serving address
    → at ≡ address
unfolding listen_and_serve
served_at net sockets at address e = ground arith

-- If the server serves, then the private interface has an IPv4 address, and a node that is given the
-- first one of these and the configured port connects to the very address at which the server listens.
pub start-remote_server :
    (net : Interfaces) (sockets : Sockets) (grpc : Grpc) (s : Server) (address : Str)
    → start net sockets s ≡ serving address
    → (ip : Str) × IsAddressOf net s.cfg.private_interface.net_iface_private ip
      × (remote_server grpc ip s.cfg.private_interface.node_port ≡ address)
unfolding start remote_server print_int
start-remote_server net sockets grpc s address e =
    elim (Result-cases (get_ipv4_from_interface net s.cfg.private_interface.net_iface_private)) [
      | inl (ip, right) ↦ (
        ip,
        ok-IsAddressOf net s.cfg.private_interface.net_iface_private ip right,
        served_at net sockets (ip ++ (b':' ∷ print_int s.cfg.private_interface.node_port)) address
            (ground arith),
      )
      | inr (failure, wrong) ↦ absurd (ground arith)
    ]
