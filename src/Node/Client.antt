-- ===== src/Node/Client.antt =====
-- pkg/nodenetwork/client.go, and what dispatcher.go does with a client up to the start of the health loop
-- (`fetchConfig`, and the body of `startDispatchers`). Package grpc and the generated client are the
-- parameter `Grpc`.
pub mod Timing
use gale_lb.Prelude.{◌++◌, ◌∷◌, Option, none, some, Result, ok, err}
use gale_lb.Prelude.Int.{ℤ}
use gale_lb.Prelude.Text.{Str, codes}
use gale_lb.Prelude.Decimal.{print_int}
use gale_lb.Consensus.{ConfigResponse, HealthStatus, serving}
use gale_lb.Node.Targets.{Target}
use gale_lb.Node.Dispatcher.{Launch, client_fails, config_fails, configured}

pub record Grpc : Type 1 where
  pub Conn : Type 0
  pub Stream : Type 0
  pub GrpcError : Type 0
  -- grpc.NewClient, for the address of a server
  pub new_client : Str → Option Conn
  -- client.ReportHealthStatus
  pub open_stream : Conn → Option Stream
  -- client.GetConfig: a configuration or nil, and an error or nil
  pub call_get_config : Conn → Option ConfigResponse × Option GrpcError
  -- stream.Send
  pub send : Stream → HealthStatus → Option GrpcError

pub data ClientError : Type 0 where
  not_connected no_stream nil_config : ClientError

-- What each round of `reportHealthLoop` sends.
abbrev pub health_status : HealthStatus
health_status = record {
  service = codes "gale-node";
  status = serving;
  message = codes "Serving requests goes brrrrr";
}

module _ (grpc : Grpc) where
  pub record Client : Type 0 where
    pub conn : grpc.Conn
    pub health_stream : grpc.Stream

  -- fmt.Sprintf("%s:%d", ip, port)
  unfoldable pub remote_server : Str → ℤ → Str
  unfolding print_int
  remote_server ip port = ip ++ (b':' ∷ print_int port)

  unfoldable pub new_client : Str → ℤ → Result ClientError Client
  unfolding remote_server
  new_client ip port = elim (grpc.new_client (remote_server ip port)) [
    | none ↦ err not_connected
    | some conn ↦ elim (grpc.open_stream conn) [
      | none ↦ err no_stream
      | some stream ↦ ok (record { conn = conn; health_stream = stream })
    ]
  ]

  -- The error of the call is only logged; what counts is the configuration.
  unfoldable pub get_config : Client → Result ClientError ConfigResponse
  get_config c = elim (grpc.call_get_config c.conn).0 [
    | none ↦ err nil_config
    | some config ↦ ok config
  ]

  unfoldable pub report_health_status : Client → HealthStatus → Option grpc.GrpcError
  report_health_status c status = grpc.send c.health_stream status

  -- What `startDispatchers` comes to for one target.
  unfoldable pub launch_of : Target → Launch
  unfolding new_client get_config
  launch_of target = elim (new_client target.ip target.port) [
    | err e ↦ client_fails
    | ok client ↦ elim (get_config client) [
      | err e ↦ config_fails
      | ok config ↦ configured config.health_check_timeout
    ]
  ]
