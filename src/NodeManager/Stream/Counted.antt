-- ===== src/NodeManager/Stream/Counted.antt =====
-- No report of a node is lost, and none is counted twice, while the handler of its stream in
-- node_manager.go runs.
pub mod Steps
pub mod Returned
pub mod Runs
use gale_lb.Prelude.{ℕ, ◌+◌, ◌%◌, ◌≡◌, List, [], ◌∷◌, Option, none, some, nat_beq, if◌then◌else◌}
use gale_lb.Prelude.Map.{lookup}
use gale_lb.Prelude.Text.{Str}
use gale_lb.Prelude.Equality.{bytes_eq}
use gale_lb.Consensus.{Rpc, HealthStatus, not_serving, shutting_down}
use gale_lb.Registry.{Node, uint_mod}
use gale_lb.NodeManager.{grpc_err_unrecoverable}
use gale_lb.NodeManager.Stream.{
  Handler, running, Listener, sending_error, sending_message, System, Action, receives,
}

module _ (rpc : Rpc) where
  open rpc use {RpcError}

  -- A message counts unless it says that the node does not serve, or shuts down.
  abbrev pub weight : Option HealthStatus → ℕ
  weight req =
      if nat_beq (rpc.get_status req) not_serving
      then 0
      else if nat_beq (rpc.get_status req) shutting_down
      then 0
      else 1

  -- What has arrived, and is yet to be counted, in the hands of the listener and in the channel.
  abbrev pub in_hand : Listener RpcError → ℕ
  in_hand (sending_error e req) = weight req
  in_hand (sending_message req) = weight req
  in_hand _ = 0

  abbrev pub in_chan : Option (Option HealthStatus) → ℕ
  in_chan none = 0
  in_chan (some req) = weight req

  -- What an action brings: what is received along with a final error is dropped.
  abbrev pub brings : Action RpcError → ℕ
  brings (receives req e) = if grpc_err_unrecoverable rpc e then 0 else weight req
  brings _ = 0

  abbrev pub arrived : List (Action RpcError) → ℕ
  arrived [] = 0
  arrived (a ∷ rest) = brings a + arrived rest

  -- From the entry `v` on, `total` messages that count have arrived.
  pub record Balanced (node_key : Str) (v : Node) (total : ℕ) (s : System RpcError) : Type 0 where
    pub runs : s.handler ≡ running
    pub entry : Node
    pub held : lookup node_key s.registry.registry ≡ some entry
    pub counted : ℕ
    pub count :
        entry.continuous_health_checks % uint_mod
        ≡ (v.continuous_health_checks + counted) % uint_mod
    pub balance : (counted + in_hand s.listener) + in_chan s.msg_chan ≡ total
