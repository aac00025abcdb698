-- ===== src/NodeManager/Process/Calls.antt =====
-- What one action of a health stream of node_manager.go does to the registry that it shares.
use gale_lb.Prelude.{ℕ, ◌≡◌, inl, inr, Option, some, true, arith, nat_beq, Bool-cases, Option-cases}
use gale_lb.Prelude.Equality.{bytes_eq}
use gale_lb.Prelude.Text.{Str}
use gale_lb.Consensus.{Rpc, HealthStatus, not_serving, shutting_down}
use gale_lb.Registry.History.{checks, fails, apply}
use gale_lb.NodeManager.{grpc_err_unrecoverable}
use gale_lb.NodeManager.Stream.{
  Handler, running, Listener, receiving, sending_last, sending_error, sending_message, done,
  panicked, System, Action, receives, sends, takes_message, takes_error, takes_timer, waits, others,
  send, on_message, on_error, on_timer, select, act, step,
}
use gale_lb.NodeManager.Process.{is_local}

-- The clock stands, and the registry is as it was, or behind one call for the stream's own node.
pub data Touches (node_key : Str) {E : Type 0} (s t : System E) : Type 0 where
  nothing : t.registry ≡ s.registry → t.now ≡ s.now → Touches node_key s t
  checked :
      t.registry ≡ apply (checks node_key s.now) s.registry → t.now ≡ s.now → Touches node_key s t
  failed : t.registry ≡ apply (fails node_key) s.registry → t.now ≡ s.now → Touches node_key s t

module _ (rpc : Rpc) (node_key : Str) (timeout : ℕ) where
  open rpc use {RpcError}

  send-Touches :
      (l : Listener RpcError) (s t : System RpcError)
      → send rpc node_key timeout l s ≡ some t
      → Touches node_key s t
  unfolding send
  send-Touches (sending_last e) s t h = nothing (ground arith) (ground arith)
  send-Touches (sending_error e req) s t h = nothing (ground arith) (ground arith)
  send-Touches (sending_message req) s t h = nothing (ground arith) (ground arith)
  send-Touches receiving s t h = absurd (cc)
  send-Touches done s t h = absurd (cc)
  send-Touches panicked s t h = absurd (cc)

  on_message-Touches :
      (req : Option HealthStatus) (s t : System RpcError)
      → on_message rpc node_key timeout req s ≡ t
      → Touches node_key s t
  unfolding on_message apply
  on_message-Touches req s t h = elim (Bool-cases (nat_beq (rpc.get_status req) not_serving)) [
    | inl idle ↦ nothing (ground arith) (ground arith)
    | inr awake ↦ elim (Bool-cases (nat_beq (rpc.get_status req) shutting_down)) [
      | inl bye ↦ nothing (ground arith) (ground arith)
      | inr alive ↦ checked (ground arith) (ground arith)
    ]
  ]

  select-Touches :
      (h : Handler RpcError) (a : Action RpcError) (s t : System RpcError)
      → select rpc node_key timeout h a s ≡ some t
      → Touches node_key s t
  unfolding select on_error on_timer apply
  select-Touches running takes_message s t h = elim (Option-cases s.msg_chan) [
    | inl e ↦ absurd (ground arith)
    | inr (req, e) ↦ on_message-Touches req s t (ground arith)
  ]
  select-Touches running takes_error s t h = elim (Option-cases s.err_chan) [
    | inl e ↦ absurd (ground arith)
    | inr (e, q) ↦ elim (Bool-cases (grpc_err_unrecoverable rpc e)) [
      | inl fatal ↦ failed (ground arith) (ground arith)
      | inr minor ↦ nothing (ground arith) (ground arith)
    ]
  ]
  select-Touches running takes_timer s t h = failed (ground arith) (ground arith)
  select-Touches _ _ s t h = absurd (ground arith)

  act-Touches :
      (l : Listener RpcError) (a : Action RpcError) (s t : System RpcError)
      → is_local a ≡ true
      → act rpc node_key timeout l a s ≡ some t
      → Touches node_key s t
  unfolding act
  act-Touches panicked a s t loc h = absurd (ground arith)
  act-Touches receiving (receives req e) s t loc h = nothing (ground arith) (ground arith)
  act-Touches l (receives req e) s t loc h = absurd (ground arith)
  act-Touches l sends s t loc h = send-Touches l s t h
  act-Touches l (waits d) s t loc h = absurd (cc)
  act-Touches l (others c) s t loc h = absurd (cc)
  act-Touches l takes_message s t loc h = select-Touches s.handler takes_message s t h
  act-Touches l takes_error s t loc h = select-Touches s.handler takes_error s t h
  act-Touches l takes_timer s t loc h = select-Touches s.handler takes_timer s t h

  pub step-Touches :
      (a : Action RpcError) (s t : System RpcError)
      → is_local a ≡ true
      → step rpc node_key timeout a s ≡ some t
      → Touches node_key s t
  unfolding step
  step-Touches a s t loc h = act-Touches s.listener a s t loc h
