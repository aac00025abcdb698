-- ===== src/NodeManager/Server.antt =====
-- pkg/lbnetwork/nodemanager/node_manager_server.go: the gRPC server around the node manager. The listener
-- of package net and gRPC's `Serve` are the parameter `Sockets`; what the messages in the log say is left
-- out.
pub mod Address
use gale_lb.Prelude.{ℕ, ◌*◌, ◌-◌, ◌^◌, List, ◌∷◌, ◌++◌, Option, none, some, Bool, Result, ok, err}
use gale_lb.Prelude.Decimal.{print_int}
use gale_lb.Prelude.Text.{Str, codes}
use gale_lb.Config.LoadBalancer.{Config, second}
use gale_lb.Registry.{NodeRegistry}
use gale_lb.NodeManager.{NodeManager, new_node_manager}
use gale_lb.Util.Addresses.{Interfaces, get_ipv4_from_interface}

abbrev pub max_recv_msg_size : ℕ
max_recv_msg_size = 4 * 1024 * 1024

abbrev pub max_send_msg_size : ℕ
max_send_msg_size = 4 * 1024 * 1024

-- time.Duration(math.MaxInt64)
abbrev pub grpc_infinity : ℕ
grpc_infinity = 2 ^ 63 - 1

abbrev pub keep_alive_probe_frequency : ℕ
keep_alive_probe_frequency = 10 * second

abbrev pub keep_alive_probe_timeout : ℕ
keep_alive_probe_timeout = 15 * second

abbrev pub default_l4_protocol : Str
default_l4_protocol = codes "tcp"

-- The options of grpc.NewServer; durations are nanoseconds.
pub record ServerOptions : Type 0 where
  pub recv_msg_size : ℕ
  pub send_msg_size : ℕ
  pub max_connection_idle : ℕ
  pub max_connection_age : ℕ
  pub max_connection_age_grace : ℕ
  pub time : ℕ
  pub timeout : ℕ

-- The gRPC server was given the options and the node manager; `reflects` says whether the reflection
-- service is registered as well.
pub record Server : Type 0 where
  pub options : ServerOptions
  pub node_manager : NodeManager
  pub reflects : Bool
  pub cfg : Config

unfoldable pub new : Config → NodeRegistry → Server
unfolding new_node_manager
new cfg registry = record {
  options = record {
    recv_msg_size = max_recv_msg_size;
    send_msg_size = max_send_msg_size;
    max_connection_idle = grpc_infinity;
    max_connection_age = grpc_infinity;
    max_connection_age_grace = grpc_infinity;
    time = keep_alive_probe_frequency;
    timeout = keep_alive_probe_timeout;
  };
  node_manager = new_node_manager cfg registry;
  reflects = Bool.true;
  cfg = cfg;
}

-- What `Serve` comes to: it goes on for ever, fails, or returns nil.
pub data Served : Type 0 where
  goes_on fails ends : Served

pub record Sockets : Type 1 where
  pub Listener : Type 0
  -- net.Listen
  pub listen : Str → Str → Option Listener
  pub serve : Listener → Served

-- Why log.Fatalf ends the process.
pub data ServerFailure : Type 0 where
  no_address cannot_listen cannot_serve : ServerFailure

-- What `Start` comes to; an address is the one it listens at.
pub data Started : Type 0 where
  exits : ServerFailure → Started
  serving comes_back : Str → Started

module _ (net : Interfaces) (sockets : Sockets) where
  unfoldable pub listen_and_serve : Str → Started
  listen_and_serve address = elim (sockets.listen default_l4_protocol address) [
    | none ↦ exits cannot_listen
    | some listener ↦ elim (sockets.serve listener) [
      | goes_on ↦ serving address
      | fails ↦ exits cannot_serve
      | ends ↦ comes_back address
    ]
  ]

  unfoldable pub start : Server → Started
  unfolding get_ipv4_from_interface listen_and_serve print_int
  start s = elim (get_ipv4_from_interface net s.cfg.private_interface.net_iface_private) [
    | err e ↦ exits no_address
    | ok ip ↦ listen_and_serve (ip ++ (b':' ∷ print_int s.cfg.private_interface.node_port))
  ]

unfoldable pub stop : Server → Server
stop s = s
