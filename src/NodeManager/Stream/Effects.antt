-- ===== src/NodeManager/Stream/Effects.antt =====
-- What a stream of node_manager.go does to the registry, by what it receives and by how it ends.
use gale_lb.Prelude.{
  ℕ, ◌+◌, ◌≤◌, ◌≡◌, [], ◌∷◌, Option, none, some, false, arith, nat_beq, if◌then◌else◌,
}
use gale_lb.Prelude.Equality.{bytes_eq}
use gale_lb.Prelude.Map.{lookup}
use gale_lb.Prelude.Text.{Str}
use gale_lb.Consensus.{Rpc, RpcLaws, HealthStatus, not_serving, shutting_down}
use gale_lb.Registry.{Node, NodeRegistry, report_new_health_check}
use gale_lb.NodeManager.{grpc_err_unrecoverable}
use gale_lb.NodeManager.Stream.{
  shut_down, unrecoverable, timed_out, running, returned, receiving, done, System, receives, sends,
  takes_message, takes_error, step, run, Reach,
}
use gale_lb.NodeManager.Stream.Order.{Reach-InOrder}
use gale_lb.NodeManager.Stream.Kept.{Reach-Tracked}

module _ (rpc : Rpc) (laws : RpcLaws rpc) where
  -- The nil error is no reason to close a stream.
  pub nil_recoverable : grpc_err_unrecoverable rpc none ≡ false
  unfolding grpc_err_unrecoverable
  nil_recoverable = ground (arith, laws.canceled_not_nil, laws.unavailable_not_nil)

  module _ (node_key : Str) (timeout : ℕ) where
    open rpc use {RpcError}

    -- What a message does that arrives while the handler runs, the listener receives and no other
    -- message waits, with a gRPC that keeps its laws: NotServing changes nothing, ShuttingDown ends
    -- the stream and leaves the registry as it is, and any other status is a health check, which
    -- also moves the deadline.
    run_message :
        (m : HealthStatus) (s : System RpcError)
        → s.listener ≡ receiving
        → s.handler ≡ running
        → s.msg_chan ≡ none
        → run rpc node_key timeout (receives (some m) none ∷ sends ∷ takes_message ∷ []) s
          ≡ some (
              if nat_beq m.status not_serving
              then s
              else if nat_beq m.status shutting_down
              then record s { handler = returned shut_down }
              else record s {
                registry = report_new_health_check s.registry node_key s.now;
                deadline = s.now + timeout;
              })
    unfolding run step
    run_message m s idle runs free = ground (arith, nil_recoverable, laws.get_status_some m)

    -- With a gRPC that keeps its laws, while the handler runs, the listener receives and both
    -- channels are empty: a failed receive that is not final counts as a health check, as the
    -- listener passes on the error and then the nil message, whose status reads as Serving.
    run_failed_receive :
        (e : RpcError) (s : System RpcError)
        → s.listener ≡ receiving
        → s.handler ≡ running
        → s.msg_chan ≡ none
        → s.err_chan ≡ none
        → grpc_err_unrecoverable rpc (some e) ≡ false
        → run rpc node_key timeout
            (receives none (some e) ∷ sends ∷ takes_error ∷ sends ∷ takes_message ∷ [])
            s
          ≡ some (record s {
            registry = report_new_health_check s.registry node_key s.now;
            deadline = s.now + timeout;
          })
    unfolding run step
    run_failed_receive e s idle runs free clear minor = ground (arith, laws.get_status_nil)

module _ (rpc : Rpc) (node_key : Str) (timeout : ℕ) (registry : NodeRegistry) (now : ℕ) (v : Node)
    (registered : lookup node_key registry.registry ≡ some v)
    (past : v.last_health_check ≤ now) where
  open rpc use {RpcError}

  -- For a node that is registered, with its latest health check not in the future, when the stream
  -- starts, and that has no other stream: a stream that timed out did so no earlier than a timeout after the node's latest health
  -- check, and the node's count of health checks is then 0.
  pub timed_out_late :
      {s : System RpcError}
      → Reach rpc node_key timeout registry now s
      → s.handler ≡ returned timed_out
      → (w : Node) × (lookup node_key s.registry.registry ≡ some w)
        × (w.continuous_health_checks ≡ 0)
        × (w.last_health_check + timeout ≤ s.now)
  timed_out_late {s} r e =
      let i = Reach-Tracked rpc node_key timeout registry now v registered past r in
      (i.entry, i.held, ground (arith, i.quiet), ground (arith, i.timely, i.expired))

  -- For a node that is registered, with its latest health check not in the future, when the stream
  -- starts, and that has no other stream: a stream that ended on an unrecoverable error leaves the node with a count of 0 and a
  -- listener that has stopped.
  pub unrecoverable_stops :
      {s : System RpcError} (e : Option RpcError)
      → Reach rpc node_key timeout registry now s
      → s.handler ≡ returned (unrecoverable e)
      → (w : Node) × (lookup node_key s.registry.registry ≡ some w)
        × (w.continuous_health_checks ≡ 0)
        × (s.listener ≡ done)
  unrecoverable_stops {s} e r h =
      let i = Reach-Tracked rpc node_key timeout registry now v registered past r in
      let o = Reach-InOrder rpc node_key timeout r in
      (i.entry, i.held, ground (arith, i.quiet), ground (arith, o.ended))
