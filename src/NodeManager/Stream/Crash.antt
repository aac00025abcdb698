-- ===== src/NodeManager/Stream/Crash.antt =====
-- When a send of the listener of node_manager.go meets a closed channel, which ends the process.
use gale_lb.Prelude.{ℕ, ◌+◌, ◌≡◌, ◌⊎◌, refl, inl, inr, [], ◌∷◌, Option, none, some, arith}
use gale_lb.Prelude.Equality.{bytes_eq}
use gale_lb.Prelude.Text.{Str}
use gale_lb.Consensus.{Rpc, HealthStatus}
use gale_lb.Registry.{NodeRegistry, report_node_failure}
use gale_lb.NodeManager.Stream.{
  Outcome, shut_down, unrecoverable, timed_out, Handler, running, returned, receiving, panicked,
  System, receives, sends, takes_timer, waits, start, step, run, Reach,
}
use gale_lb.NodeManager.Stream.Order.{InOrder, Reach-InOrder}

module _ (rpc : Rpc) (node_key : Str) (timeout : ℕ) where
  open rpc use {RpcError}

  crash_outcome :
      (h : Handler RpcError) (s : System RpcError)
      → s.handler ≡ h
      → s.listener ≡ panicked
      → InOrder rpc s
      → (h ≡ returned shut_down) ⊎ (h ≡ returned timed_out)
  crash_outcome running s stands crashed i = absurd (ground (arith, i.alive))
  crash_outcome (returned shut_down) s stands crashed i = inl refl
  crash_outcome (returned timed_out) s stands crashed i = inr refl
  crash_outcome (returned (unrecoverable e)) s stands crashed i = absurd (ground (arith, i.ended))

  -- A stream whose node has no other one crashes the process only after its handler has returned for a shutdown
  -- or a timeout: while it runs,
  -- and after an unrecoverable error, no send meets a closed channel.
  pub crash_only_after_return :
      {registry : NodeRegistry} {now : ℕ} {s : System RpcError}
      → Reach rpc node_key timeout registry now s
      → s.listener ≡ panicked
      → (s.handler ≡ returned shut_down) ⊎ (s.handler ≡ returned timed_out)
  crash_only_after_return {s = s} r crashed =
      crash_outcome s.handler s refl crashed (Reach-InOrder rpc node_key timeout r)

  -- Once the handler has returned, whatever the listener receives next makes it send on a closed
  -- channel, which panics.
  run_late_receive :
      (req : Option HealthStatus) (e : Option RpcError) (o : Outcome RpcError) (s : System RpcError)
      → s.handler ≡ returned o
      → s.listener ≡ receiving
      → run rpc node_key timeout (receives req e ∷ sends ∷ []) s
        ≡ some (record s { listener = panicked })
  unfolding run step
  run_late_receive req none o s gone idle = ground arith
  run_late_receive req (some e) o s gone idle = ground arith

  -- If a node stays silent from the start of its stream until the timeout, the handler returns and counts a
  -- failure, and whatever error then ends the stream makes the listener panic.
  run_silent_node :
      (registry : NodeRegistry) (now : ℕ) (e : RpcError)
      → run rpc node_key timeout
          (waits timeout ∷ takes_timer ∷ receives none (some e) ∷ sends ∷ [])
          (start rpc node_key timeout registry now)
        ≡ some (record (start rpc node_key timeout registry now) {
          registry = report_node_failure registry node_key;
          listener = panicked;
          handler = returned timed_out;
          now = now + timeout;
        })
  unfolding run step
  run_silent_node registry now e = ground arith
