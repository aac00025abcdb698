-- ===== src/NodeManager/Stream/Order.antt =====
-- The order of the errors on a health stream of node_manager.go: the listener stops after an unrecoverable
-- one, so nothing follows it.
use gale_lb.Prelude.{ℕ, ◌≡◌, refl, Option, none, some, true, false, arith}
use gale_lb.Prelude.Equality.{bytes_eq}
use gale_lb.Prelude.Text.{Str}
use gale_lb.Consensus.{Rpc}
use gale_lb.Registry.{NodeRegistry}
use gale_lb.NodeManager.{grpc_err_unrecoverable}
use gale_lb.NodeManager.Stream.{
  shut_down, unrecoverable, timed_out, Handler, running, returned, Listener, receiving,
  sending_last, sending_error, sending_message, done, panicked, System, Action, receives, sends,
  takes_message, takes_error, takes_timer, waits, others, send, select, act, step, Reach, begin,
  next,
}

module _ (rpc : Rpc) where
  open rpc use {RpcError}

  abbrev pub IsDone : Listener RpcError → Type 0
  IsDone done = Unit {0}
  IsDone receiving = ⊥
  IsDone (sending_last e) = ⊥
  IsDone (sending_error e req) = ⊥
  IsDone (sending_message req) = ⊥
  IsDone panicked = ⊥

  -- An unrecoverable error in the channel was the listener's last word.
  abbrev pub LastWord : Option (Option RpcError) → Listener RpcError → Type 0
  LastWord none l = Unit {0}
  LastWord (some e) l = grpc_err_unrecoverable rpc e ≡ true → IsDone l

  abbrev pub Ended : Handler RpcError → Listener RpcError → Type 0
  Ended running l = Unit {0}
  Ended (returned shut_down) l = Unit {0}
  Ended (returned timed_out) l = Unit {0}
  Ended (returned (unrecoverable e)) l = IsDone l

  -- A recoverable error is what the listener sends on and goes on from.
  abbrev pub Recoverable : Listener RpcError → Type 0
  Recoverable (sending_error e req) = grpc_err_unrecoverable rpc e ≡ false
  Recoverable receiving = Unit {0}
  Recoverable (sending_last e) = Unit {0}
  Recoverable (sending_message req) = Unit {0}
  Recoverable done = Unit {0}
  Recoverable panicked = Unit {0}

  -- While the handler runs the channels are open, and no send panics.
  abbrev pub Alive : Handler RpcError → Listener RpcError → Type 0
  Alive running panicked = ⊥
  Alive running receiving = Unit {0}
  Alive running (sending_last e) = Unit {0}
  Alive running (sending_error e req) = Unit {0}
  Alive running (sending_message req) = Unit {0}
  Alive running done = Unit {0}
  Alive (returned o) l = Unit {0}

  pub record InOrder (s : System RpcError) : Type 0 where
    pub last_word : LastWord s.err_chan s.listener
    pub ended : Ended s.handler s.listener
    pub recoverable : Recoverable s.listener
    pub alive : Alive s.handler s.listener

  module _ (node_key : Str) (timeout : ℕ) where
    send-InOrder :
        (l : Listener RpcError) (s t : System RpcError)
        → s.listener ≡ l
        → InOrder s
        → send rpc node_key timeout l s ≡ some t
        → InOrder t
    unfolding send
    send-InOrder (sending_last e) s t stands i h = ground arith
    send-InOrder (sending_error e req) s t stands i h = ground arith
    send-InOrder (sending_message req) s t stands i h = ground arith
    send-InOrder receiving s t stands i h = ground arith
    send-InOrder done s t stands i h = ground arith
    send-InOrder panicked s t stands i h = ground arith

    select-InOrder :
        (h : Handler RpcError) (a : Action RpcError) (s t : System RpcError)
        → s.handler ≡ h
        → InOrder s
        → select rpc node_key timeout h a s ≡ some t
        → InOrder t
    unfolding select grpc_err_unrecoverable
    select-InOrder running takes_message s t stands i h = ground arith
    select-InOrder running takes_error s t stands i h = ground arith
    select-InOrder running takes_timer s t stands i h = ground arith
    select-InOrder _ _ s t stands i h = ground arith

    act-InOrder :
        (l : Listener RpcError) (a : Action RpcError) (s t : System RpcError)
        → s.listener ≡ l
        → InOrder s
        → act rpc node_key timeout l a s ≡ some t
        → InOrder t
    unfolding act
    act-InOrder panicked a s t stands i h = ground arith
    act-InOrder receiving (receives req none) s t stands i h = ground arith
    act-InOrder receiving (receives req (some e)) s t stands i h = ground arith
    act-InOrder l (receives req e) s t stands i h = ground arith
    act-InOrder l sends s t stands i h = send-InOrder l s t stands i h
    act-InOrder l (waits d) s t stands i h = ground arith
    act-InOrder l (others c) s t stands i h = ground arith
    act-InOrder l takes_message s t stands i h = select-InOrder s.handler takes_message s t refl i h
    act-InOrder l takes_error s t stands i h = select-InOrder s.handler takes_error s t refl i h
    act-InOrder l takes_timer s t stands i h = select-InOrder s.handler takes_timer s t refl i h

    pub step-InOrder :
        (a : Action RpcError) (s t : System RpcError)
        → InOrder s
        → step rpc node_key timeout a s ≡ some t
        → InOrder t
    unfolding step
    step-InOrder a s t i h = act-InOrder s.listener a s t refl i h

    pub Reach-InOrder :
        {registry : NodeRegistry} {now : ℕ} {s : System RpcError}
        → Reach rpc node_key timeout registry now s
        → InOrder s
    Reach-InOrder begin = record { last_word = tt; ended = tt; recoverable = tt; alive = tt }
    Reach-InOrder (next {s} {t} a apart r h) = step-InOrder a s t (Reach-InOrder r) h
