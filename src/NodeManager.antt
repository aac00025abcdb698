-- ===== src/NodeManager.antt =====
-- pkg/lbnetwork/nodemanager/node_manager.go: the gRPC service through which nodes report their health.
-- The children model the goroutines of one stream and what they do to the registry.
pub mod Stream
pub mod Setup
pub mod Macs
pub mod Process
pub mod Server
mod Tests
use gale_lb.Prelude.{
  ℕ, ◌+◌, ◌-◌, ◌%◌, ◌^◌, ◌≡◌, Option, none, some, Bool, ◌||◌, nat_beq, ltb, if◌then◌else◌, Result,
  ok, err, ◌>>=◌, List, ◌++◌,
}
use gale_lb.Prelude.Int.{ℤ, pos, negsuc}
use gale_lb.Config.LoadBalancer.{Config, NodeHealth}
use gale_lb.Prelude.Text.{Str, codes}
use gale_lb.Consensus.{Rpc, ConfigResponse}
use gale_lb.Registry.{NodeRegistry, register_node}

-- The service: its configuration, and the registry that it shares with the rest of the load balancer.
pub record NodeManager : Type 0 where
  pub cfg : Config
  pub registry : NodeRegistry

unfoldable pub new_node_manager : Config → NodeRegistry → NodeManager
new_node_manager cfg registry = record { cfg = cfg; registry = registry }

abbrev pub u32_mod : ℕ
u32_mod = 2 ^ 32

-- `uint32(c)` drops the high half of a `uint`; the other conversions keep 64 bits.
unfoldable pub get_config : NodeHealth → ConfigResponse
get_config c = record {
  checks_before_routing = c.checks_before_routing % u32_mod;
  health_check_timeout = c.checks_timeout;
  black_list_after_fails = c.black_list_after_fails;
  black_list_expiry = c.black_list_expiry;
}

module _ (rpc : Rpc) where
  unfoldable pub grpc_err_unrecoverable : Option rpc.RpcError → Bool
  grpc_err_unrecoverable e =
      nat_beq (rpc.code e) rpc.canceled || nat_beq (rpc.code e) rpc.unavailable

-- The peer of a connection, as `peer.FromContext` and the type assertion see it. `tcp none` is a nil
-- `*net.TCPAddr`.
pub data Peer (TcpAddr : Type 0) : Type 0 where
  tcp : Option TcpAddr → Peer TcpAddr
  other : Peer TcpAddr

-- Package net's TCP addresses and the two lookups of pkg/util/arp.go, seen from the handler.
pub record Network : Type 1 where
  pub TcpAddr : Type 0
  pub ip_string : TcpAddr → Str
  pub addr_string : TcpAddr → Str
  pub mac_from_arp_cache : Str → Str → Option Str
  pub mac_via_arp_call : Str → Str → Option Str

pub data StartError : Type 0 where
  no_peer no_mac : StartError

pub record Session : Type 0 where
  pub node_key : Str
  pub mac : Str
  pub registry : NodeRegistry

module _ (net : Network) where
  -- `extractTCPFromConn`; `none` is a context without a peer.
  unfoldable pub extract_tcp_from_conn : Option (Peer net.TcpAddr) → Option net.TcpAddr
  extract_tcp_from_conn none = none
  extract_tcp_from_conn (some (tcp (some addr))) = some addr
  extract_tcp_from_conn (some (tcp none)) = none
  extract_tcp_from_conn (some other) = none

  -- The MAC address from the ARP cache, else by an ARP call.
  unfoldable pub resolve_mac : net.TcpAddr → Str → Option Str
  resolve_mac addr iface = elim (net.mac_from_arp_cache (net.ip_string addr) iface) [
    | some mac ↦ some mac
    | none ↦ net.mac_via_arp_call (net.ip_string addr) iface
  ]

  -- `ReportHealthStatus`, up to the start of its two loops.
  unfoldable pub report_health_status :
      Option (Peer net.TcpAddr) → Str → NodeRegistry → Result StartError Session
  unfolding extract_tcp_from_conn resolve_mac
  report_health_status peer iface registry = elim (extract_tcp_from_conn peer) [
    | none ↦ err no_peer
    | some addr ↦ elim (resolve_mac addr iface) [
      | none ↦ err no_mac
      | some mac ↦ ok (record {
        node_key = net.addr_string addr;
        mac = mac;
        registry = register_node registry (net.addr_string addr);
      })
    ]
  ]
