-- ===== src/NodeManager/Stream.antt =====
-- The two goroutines of one health stream of node_manager.go, `listenerReportHealthStatus` and
-- `multiplexHealthStatus`, with their channels of capacity 1, the timer, the clock and the calls that
-- other streams make on the shared registry. A schedule is a sequence of actions.
pub mod Order
pub mod Tracked
pub mod Kept
pub mod Effects
pub mod Crash
pub mod Alive
pub mod Counted
pub mod Due
use gale_lb.Prelude.{
  ℕ, ◌+◌, ◌≡◌, List, [], ◌∷◌, Option, none, some, Bool, leb, nat_beq, if◌then◌else◌,
}
use gale_lb.Prelude.Equality.{◌==◌, bytes_eq}
use gale_lb.Prelude.Text.{Str}
use gale_lb.Consensus.{Rpc, HealthStatus, not_serving, shutting_down}
use gale_lb.Registry.{NodeRegistry, report_new_health_check, report_node_failure}
use gale_lb.Registry.History.{Call, key_of}
use gale_lb.Registry.History
use gale_lb.NodeManager.{grpc_err_unrecoverable}

-- How `multiplexHealthStatus` returns.
pub data Outcome (E : Type 0) : Type 0 where
  shut_down : Outcome E
  unrecoverable : Option E → Outcome E
  timed_out : Outcome E

pub data Handler (E : Type 0) : Type 0 where
  running : Handler E
  returned : Outcome E → Handler E

-- Where the listener stands: at `stream.Recv`, or at one of its three sends. `panicked` is a send on a
-- closed channel, which ends the process.
pub data Listener (E : Type 0) : Type 0 where
  receiving : Listener E
  sending_last : Option E → Listener E
  sending_error : Option E → Option HealthStatus → Listener E
  sending_message : Option HealthStatus → Listener E
  done : Listener E
  panicked : Listener E

-- A channel is empty or holds one value; a nil error or message is a value too.
pub record System (E : Type 0) : Type 0 where
  pub registry : NodeRegistry
  pub msg_chan : Option (Option HealthStatus)
  pub err_chan : Option (Option E)
  pub listener : Listener E
  pub handler : Handler E
  pub now : ℕ
  pub deadline : ℕ

pub data Action (E : Type 0) : Type 0 where
  -- What `stream.Recv` returns.
  receives : Option HealthStatus → Option E → Action E
  sends : Action E
  takes_message : Action E
  takes_error : Action E
  takes_timer : Action E
  waits : ℕ → Action E
  others : Call → Action E

-- The deferred calls close both channels as soon as the handler returns.
abbrev pub is_closed : {E : Type 0} → Handler E → Bool
is_closed running = Bool.false
is_closed (returned o) = Bool.true

module _ (rpc : Rpc) (node_key : Str) (timeout : ℕ) where
  open rpc use {RpcError}

  -- The state after `time.NewTimer`, with the listener started.
  abbrev pub start : NodeRegistry → ℕ → System RpcError
  start registry now = record {
    registry = registry;
    msg_chan = none;
    err_chan = none;
    listener = receiving;
    handler = running;
    now = now;
    deadline = now + timeout;
  }

  unfoldable pub received : Option HealthStatus → Option RpcError → Listener RpcError
  unfolding grpc_err_unrecoverable
  received req none =
      if grpc_err_unrecoverable rpc none then sending_last none else sending_message req
  received req (some e) =
      if grpc_err_unrecoverable rpc (some e)
      then sending_last (some e)
      else sending_error (some e) req

  -- A send: it panics on a closed channel, waits on a full one (`none`), and goes on.
  unfoldable pub send : Listener RpcError → System RpcError → Option (System RpcError)
  send (sending_last e) s =
      if is_closed s.handler then some (record s { listener = panicked }) else elim s.err_chan [
        | none ↦ some (record s { err_chan = some e; listener = done })
        | some _ ↦ none
      ]
  send (sending_error e req) s =
      if is_closed s.handler then some (record s { listener = panicked }) else elim s.err_chan [
        | none ↦ some (record s { err_chan = some e; listener = sending_message req })
        | some _ ↦ none
      ]
  send (sending_message req) s =
      if is_closed s.handler then some (record s { listener = panicked }) else elim s.msg_chan [
        | none ↦ some (record s { msg_chan = some req; listener = receiving })
        | some _ ↦ none
      ]
  send receiving s = none
  send done s = none
  send panicked s = none

  -- `case msg := <-msgChan`
  unfoldable pub on_message : Option HealthStatus → System RpcError → System RpcError
  on_message req s =
      if nat_beq (rpc.get_status req) not_serving
      then record s { msg_chan = none }
      else if nat_beq (rpc.get_status req) shutting_down
      then record s { msg_chan = none; handler = returned shut_down }
      else record s {
        msg_chan = none;
        registry = report_new_health_check s.registry node_key s.now;
        deadline = s.now + timeout;
      }

  -- `case err := <-errChan`
  unfoldable pub on_error : Option RpcError → System RpcError → System RpcError
  unfolding grpc_err_unrecoverable
  on_error e s =
      if grpc_err_unrecoverable rpc e
      then record s {
        err_chan = none;
        registry = report_node_failure s.registry node_key;
        handler = returned (unrecoverable e);
      }
      else record s { err_chan = none }

  -- `case <-timer.C`
  unfoldable pub on_timer : System RpcError → System RpcError
  on_timer s = record s {
    registry = report_node_failure s.registry node_key;
    handler = returned timed_out;
  }

  -- What the handler does next, if it still runs.
  unfoldable pub select :
      Handler RpcError → Action RpcError → System RpcError → Option (System RpcError)
  unfolding on_message on_error on_timer
  select running takes_message s = elim s.msg_chan [
    | none ↦ none
    | some req ↦ some (on_message req s)
  ]
  select running takes_error s = elim s.err_chan [ none ↦ none | some e ↦ some (on_error e s) ]
  select running takes_timer s = if leb s.deadline s.now then some (on_timer s) else none
  select _ _ s = none

  -- One action in a process that has not crashed; `none` if it is not possible in the state.
  unfoldable pub act :
      Listener RpcError → Action RpcError → System RpcError → Option (System RpcError)
  unfolding received send select
  act panicked a s = none
  act receiving (receives req e) s = some (record s { listener = received req e })
  act l (receives req e) s = none
  act l sends s = send l s
  act l (waits d) s = some (record s { now = s.now + d })
  act l (others c) s = some (record s { registry = History.apply c s.registry })
  act l takes_message s = select s.handler takes_message s
  act l takes_error s = select s.handler takes_error s
  act l takes_timer s = select s.handler takes_timer s

  unfoldable pub step : Action RpcError → System RpcError → Option (System RpcError)
  unfolding act
  step a s = act s.listener a s

  -- A sequence of actions; `none` if one of them is not possible.
  unfoldable pub run : List (Action RpcError) → System RpcError → Option (System RpcError)
  run [] s = some s
  run (a ∷ rest) s = elim (step a s) [ none ↦ none | some t ↦ run rest t ]

  -- What happens to a stream whose node has no other one: the calls of other streams are for other nodes.
  abbrev pub IsApart : Action RpcError → Type 0
  IsApart (others c) = (key_of c == node_key) ≡ Bool.false
  IsApart _ = Unit {0}

  -- The states that a stream can come to, if its node has no other one.
  pub data Reach (registry : NodeRegistry) (now : ℕ) : System RpcError → Type 0 where
    begin : Reach registry now (start registry now)
    next :
        {s t : System RpcError} (a : Action RpcError)
        → IsApart a
        → Reach registry now s
        → step a s ≡ some t
        → Reach registry now t
