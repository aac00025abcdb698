-- ===== src/NodeManager/Stream/Counted/Returned.antt =====
-- A handler of node_manager.go that has returned stays so.
use gale_lb.Prelude.{ℕ, ◌≡◌, inl, inr, List, [], ◌∷◌, some, arith, Option-cases}
use gale_lb.Prelude.Equality.{bytes_eq}
use gale_lb.Prelude.Text.{Str}
use gale_lb.Consensus.{Rpc}
use gale_lb.NodeManager.Stream.{
  Outcome, Handler, running, returned, Listener, receiving, sending_last, sending_error,
  sending_message, done, panicked, System, Action, receives, sends, takes_message, takes_error,
  takes_timer, waits, others, send, select, act, step, run,
}

module _ (rpc : Rpc) (node_key : Str) (timeout : ℕ) where
  open rpc use {RpcError}

  send-returned :
      (o : Outcome RpcError) (l : Listener RpcError) (s t : System RpcError)
      → s.handler ≡ returned o
      → send rpc node_key timeout l s ≡ some t
      → t.handler ≡ returned o
  unfolding send
  send-returned o (sending_last e) s t gone h = ground (arith, gone)
  send-returned o (sending_error e req) s t gone h = ground (arith, gone)
  send-returned o (sending_message req) s t gone h = ground (arith, gone)
  send-returned o receiving s t gone h = absurd (ground arith)
  send-returned o done s t gone h = absurd (ground arith)
  send-returned o panicked s t gone h = absurd (ground arith)

  select-returned :
      (o : Outcome RpcError) (h : Handler RpcError) (a : Action RpcError) (s t : System RpcError)
      → h ≡ returned o
      → ¬ (select rpc node_key timeout h a s ≡ some t)
  unfolding select
  select-returned o running a s t gone h = absurd (cc (gone))
  select-returned o (returned p) a s t gone h = absurd (ground arith)

  act-returned :
      (o : Outcome RpcError) (l : Listener RpcError) (a : Action RpcError) (s t : System RpcError)
      → s.handler ≡ returned o
      → act rpc node_key timeout l a s ≡ some t
      → t.handler ≡ returned o
  unfolding act
  act-returned o panicked a s t gone h = absurd (ground arith)
  act-returned o receiving (receives req e) s t gone h = ground (arith, gone)
  act-returned o l (receives req e) s t gone h = absurd (ground arith)
  act-returned o l sends s t gone h = send-returned o l s t gone h
  act-returned o l (waits d) s t gone h = ground (arith, gone)
  act-returned o l (others c) s t gone h = ground (arith, gone)
  act-returned o l takes_message s t gone h =
      absurd (select-returned o s.handler takes_message s t gone h)
  act-returned o l takes_error s t gone h =
      absurd (select-returned o s.handler takes_error s t gone h)
  act-returned o l takes_timer s t gone h =
      absurd (select-returned o s.handler takes_timer s t gone h)

  pub run-returned :
      (o : Outcome RpcError) (acts : List (Action RpcError)) (s t : System RpcError)
      → s.handler ≡ returned o
      → run rpc node_key timeout acts s ≡ some t
      → t.handler ≡ returned o
  unfolding run step
  run-returned o [] s t gone h = ground (arith, gone)
  run-returned o (a ∷ rest) s t gone h = elim (Option-cases (step rpc node_key timeout a s)) [
    | inl stuck ↦ absurd (ground arith)
    | inr (u, e) ↦ run-returned o rest u t (act-returned o s.listener a s u gone e) (ground arith)
  ]
