-- ===== src/NodeManager/Stream/Due.antt =====
-- The timer of a stream of node_manager.go is never set further ahead than a timeout.
use gale_lb.Prelude.{ℕ, ◌+◌, ◌≤◌, ◌≡◌, some, arith}
use gale_lb.Prelude.Equality.{bytes_eq}
use gale_lb.Prelude.Text.{Str}
use gale_lb.Consensus.{Rpc}
use gale_lb.Registry.{NodeRegistry}
use gale_lb.NodeManager.Stream.{
  Handler, running, Listener, receiving, sending_last, sending_error, sending_message, done,
  panicked, System, Action, receives, sends, takes_message, takes_error, takes_timer, waits, others,
  send, on_message, on_error, on_timer, select, act, step, Reach, begin, next,
}

module _ (rpc : Rpc) (node_key : Str) (timeout : ℕ) where
  open rpc use {RpcError}

  abbrev IsDue : System RpcError → Type 0
  IsDue s = s.deadline ≤ s.now + timeout

  send-IsDue :
      (l : Listener RpcError) (s t : System RpcError)
      → IsDue s
      → send rpc node_key timeout l s ≡ some t
      → IsDue t
  unfolding send
  send-IsDue (sending_last e) s t due h = ground arith
  send-IsDue (sending_error e req) s t due h = ground arith
  send-IsDue (sending_message req) s t due h = ground arith
  send-IsDue receiving s t due h = absurd (ground arith)
  send-IsDue done s t due h = absurd (ground arith)
  send-IsDue panicked s t due h = absurd (ground arith)

  select-IsDue :
      (h : Handler RpcError) (a : Action RpcError) (s t : System RpcError)
      → IsDue s
      → select rpc node_key timeout h a s ≡ some t
      → IsDue t
  unfolding select on_message on_error on_timer
  select-IsDue running takes_message s t due h = ground arith
  select-IsDue running takes_error s t due h = ground arith
  select-IsDue running takes_timer s t due h = ground arith
  select-IsDue _ _ s t due h = absurd (ground arith)

  act-IsDue :
      (l : Listener RpcError) (a : Action RpcError) (s t : System RpcError)
      → IsDue s
      → act rpc node_key timeout l a s ≡ some t
      → IsDue t
  unfolding act
  act-IsDue panicked a s t due h = absurd (ground arith)
  act-IsDue receiving (receives req e) s t due h = ground arith
  act-IsDue l (receives req e) s t due h = absurd (ground arith)
  act-IsDue l sends s t due h = send-IsDue l s t due h
  act-IsDue l (waits d) s t due h = ground arith
  act-IsDue l (others c) s t due h = ground arith
  act-IsDue l takes_message s t due h = select-IsDue s.handler takes_message s t due h
  act-IsDue l takes_error s t due h = select-IsDue s.handler takes_error s t due h
  act-IsDue l takes_timer s t due h = select-IsDue s.handler takes_timer s t due h

  pub Reach-IsDue :
      (registry : NodeRegistry) (now : ℕ) {s : System RpcError}
      → Reach rpc node_key timeout registry now s
      → s.deadline ≤ s.now + timeout
  unfolding step
  Reach-IsDue registry now begin = omega arith
  Reach-IsDue registry now (next {s} {t} a apart r h) =
      act-IsDue s.listener a s t (Reach-IsDue registry now r) h
