-- ===== src/NodeManager/Stream/Kept.antt =====
-- The registry entry, the deadline and the handler's result in every state of a health stream.
use mathlib.Core.Path.{subst}
use gale_lb.Prelude.{ℕ, ◌+◌, ◌≤◌, ◌≡◌, refl, ◌∙◌, Option, some, false, arith}
use gale_lb.Prelude.Equality.{◌==◌, bytes_eq}
use gale_lb.Prelude.Map.{lookup}
use gale_lb.Prelude.Text.{Str}
use gale_lb.Consensus.{Rpc, HealthStatus}
use gale_lb.Registry.{Node, NodeRegistry}
use gale_lb.Registry.History.{
  Call, registers, checks, fails, lookup-register_node, lookup-report_new_health_check,
  lookup-report_node_failure, key_of, lookup-apply_other,
}
use gale_lb.Registry.History
use gale_lb.NodeManager.Stream.{
  shut_down, unrecoverable, timed_out, Handler, running, returned, Listener, receiving,
  sending_last, sending_error, sending_message, done, panicked, System, Action, receives, sends,
  takes_message, takes_error, takes_timer, waits, others, received, send, act, step, IsApart, Reach,
  begin, next,
}
use gale_lb.NodeManager.Stream.Tracked.{Tracked, Expired, select-Tracked}

module _ (rpc : Rpc) (node_key : Str) (timeout : ℕ) where
  open rpc use {RpcError}

  waits-Expired :
      (h : Handler RpcError) (deadline now d : ℕ)
      → Expired rpc node_key timeout h deadline now
      → Expired rpc node_key timeout h deadline (now + d)
  waits-Expired running deadline now d x = tt
  waits-Expired (returned shut_down) deadline now d x = tt
  waits-Expired (returned timed_out) deadline now d x = omega arith
  waits-Expired (returned (unrecoverable e)) deadline now d x = tt

  -- An action that touches neither the entry, nor the handler, nor the deadline.
  relocated :
      (s : System RpcError) (l : Listener RpcError) (m : Option (Option HealthStatus))
      (e : Option (Option RpcError))
      → Tracked rpc node_key timeout s
      → Tracked rpc node_key timeout (record s { listener = l; msg_chan = m; err_chan = e })
  relocated s l m e i = record {
    entry = i.entry;
    held = i.held;
    timely = i.timely;
    expired = i.expired;
    quiet = i.quiet;
  }

  send-Tracked :
      (l : Listener RpcError) (s t : System RpcError)
      → Tracked rpc node_key timeout s
      → send rpc node_key timeout l s ≡ some t
      → Tracked rpc node_key timeout t
  unfolding send
  send-Tracked (sending_last e) s t i h =
      ground (
        arith,
        relocated s panicked s.msg_chan s.err_chan i,
        relocated s done s.msg_chan (some e) i,
      )
  send-Tracked (sending_error e req) s t i h = ground (
    arith,
    relocated s panicked s.msg_chan s.err_chan i,
    relocated s (sending_message req) s.msg_chan (some e) i,
  )
  send-Tracked (sending_message req) s t i h = ground (
    arith,
    relocated s panicked s.msg_chan s.err_chan i,
    relocated s receiving (some req) s.err_chan i,
  )
  send-Tracked receiving s t i h = absurd (ground arith)
  send-Tracked done s t i h = absurd (ground arith)
  send-Tracked panicked s t i h = absurd (ground arith)

  others-Tracked :
      (c : Call) (s : System RpcError)
      → (key_of c == node_key) ≡ false
      → Tracked rpc node_key timeout s
      → Tracked rpc node_key timeout (record s { registry = History.apply c s.registry })
  others-Tracked c s other i = record {
    entry = i.entry;
    held = lookup-apply_other c s.registry node_key other ∙ i.held;
    timely = i.timely;
    expired = i.expired;
    quiet = i.quiet;
  }

  act-Tracked :
      (l : Listener RpcError) (a : Action RpcError) (s t : System RpcError)
      → IsApart rpc node_key timeout a
      → Tracked rpc node_key timeout s
      → act rpc node_key timeout l a s ≡ some t
      → Tracked rpc node_key timeout t
  unfolding act
  act-Tracked panicked a s t apart i h = absurd (ground arith)
  act-Tracked receiving (receives req e) s t apart i h =
      ground (arith, relocated s (received rpc node_key timeout req e) s.msg_chan s.err_chan i)
  act-Tracked l (receives req e) s t apart i h = absurd (ground arith)
  act-Tracked l sends s t apart i h = send-Tracked l s t i h
  act-Tracked l (waits d) s t apart i h = subst (Tracked rpc node_key timeout) (ground arith) (
      let u : Tracked rpc node_key timeout (record s { now = s.now + d }) = record {
        entry = i.entry;
        held = i.held;
        timely = i.timely;
        expired = waits-Expired s.handler s.deadline s.now d i.expired;
        quiet = i.quiet;
      } in
      u)
  act-Tracked l (others c) s t apart i h =
      subst (Tracked rpc node_key timeout) (ground arith) (others-Tracked c s apart i)
  act-Tracked l takes_message s t apart i h =
      select-Tracked rpc node_key timeout s.handler takes_message s t refl i h
  act-Tracked l takes_error s t apart i h =
      select-Tracked rpc node_key timeout s.handler takes_error s t refl i h
  act-Tracked l takes_timer s t apart i h =
      select-Tracked rpc node_key timeout s.handler takes_timer s t refl i h

  pub step-Tracked :
      (a : Action RpcError) (s t : System RpcError)
      → IsApart rpc node_key timeout a
      → Tracked rpc node_key timeout s
      → step rpc node_key timeout a s ≡ some t
      → Tracked rpc node_key timeout t
  unfolding step
  step-Tracked a s t apart i h = act-Tracked s.listener a s t apart i h

  -- The invariant holds in every reachable state, if it does at the start: the node is registered,
  -- and its latest health check is not in the future.
  pub Reach-Tracked :
      (registry : NodeRegistry) (now : ℕ) (v : Node)
      → lookup node_key registry.registry ≡ some v
      → v.last_health_check ≤ now
      → {s : System RpcError} → Reach rpc node_key timeout registry now s
      → Tracked rpc node_key timeout s
  Reach-Tracked registry now v e past begin = record {
    entry = v;
    held = e;
    timely = omega arith;
    expired = tt;
    quiet = tt;
  }
  Reach-Tracked registry now v e past (next {s} {t} a apart r h) =
      step-Tracked a s t apart (Reach-Tracked registry now v e past r) h
