-- ===== src/NodeManager/Process.antt =====
-- All health streams of node_manager.go in one process: they share the registry and the clock, and a panic
-- of one of their goroutines ends them all. Each call of `ReportHealthStatus` whose set-up succeeds opens a
-- stream, which then takes the steps of NodeManager/Stream.
pub mod Calls
pub mod Rule
pub mod Others
pub mod Views
pub mod Joins
pub mod Turns
pub mod Refinement
pub mod Outage
pub mod Silence
mod Tests
use gale_lb.Prelude.{
  ℕ, ◌+◌, ◌≡◌, List, [], ◌∷◌, ◌++◌, Option, none, some, Bool, ◌||◌, if◌then◌else◌, Result, ok, err,
}
use gale_lb.Prelude.Equality.{nat_eq}
use gale_lb.Prelude.Map.{Map, lookup, insert}
use gale_lb.Prelude.Text.{Str}
use gale_lb.Consensus.{Rpc, HealthStatus}
use gale_lb.Registry.{NodeRegistry, new_registry}
use gale_lb.NodeManager.{Network, Peer, Session, report_health_status}
use gale_lb.NodeManager.Stream.{
  Handler, running, Listener, receiving, panicked, System, Action, waits, others, start, step,
}

-- What a stream has to itself.
pub record Stream (E : Type 0) : Type 0 where
  pub node_key : Str
  pub msg_chan : Option (Option HealthStatus)
  pub err_chan : Option (Option E)
  pub listener : Listener E
  pub handler : Handler E
  pub deadline : ℕ

pub record Process (E : Type 0) : Type 0 where
  pub registry : NodeRegistry
  pub now : ℕ
  pub streams : Map ℕ (Stream E)
  pub next_id : ℕ

-- The process as one of its streams sees it.
abbrev pub view : {E : Type 0} → Process E → Stream E → System E
view p st = record {
  registry = p.registry;
  msg_chan = st.msg_chan;
  err_chan = st.err_chan;
  listener = st.listener;
  handler = st.handler;
  now = p.now;
  deadline = st.deadline;
}

abbrev pub own : {E : Type 0} → Str → System E → Stream E
own node_key s = record {
  node_key = node_key;
  msg_chan = s.msg_chan;
  err_chan = s.err_chan;
  listener = s.listener;
  handler = s.handler;
  deadline = s.deadline;
}

abbrev pub has_panicked : {E : Type 0} → Listener E → Bool
has_panicked panicked = Bool.true
has_panicked _ = Bool.false

unfoldable pub has_crashed : {E : Type 0} → Map ℕ (Stream E) → Bool
has_crashed [] = Bool.false
has_crashed ((i, st) ∷ streams) = has_panicked st.listener || has_crashed streams

-- A clock that goes on, and what other streams do, are no actions of one stream alone.
abbrev pub is_local : {E : Type 0} → Action E → Bool
is_local (waits d) = Bool.false
is_local (others c) = Bool.false
is_local _ = Bool.true

-- A call of `ReportHealthStatus` over a connection, a wait, or an action of one stream.
pub data Move (A E : Type 0) : Type 0 where
  connects : Option (Peer A) → Move A E
  passes : ℕ → Move A E
  acts : ℕ → Action E → Move A E

module _ (net : Network) (rpc : Rpc) (iface : Str) (timeout : ℕ) where
  open rpc use {RpcError}
  open net use {TcpAddr}

  abbrev pub boot : ℕ → Process RpcError
  boot now = record { registry = new_registry; now = now; streams = []; next_id = 0 }

  -- The set-up of a call; one that fails changes nothing.
  unfoldable pub connect : Option (Peer TcpAddr) → Process RpcError → Process RpcError
  unfolding report_health_status
  connect peer p = elim (report_health_status net peer iface p.registry) [
    | err e ↦ p
    | ok session ↦ record p {
      registry = session.registry;
      streams =
          insert p.next_id
            (own session.node_key (start rpc session.node_key timeout session.registry p.now))
            p.streams;
      next_id = p.next_id + 1;
    }
  ]

  unfoldable pub act_of : ℕ → Action RpcError → Process RpcError → Option (Process RpcError)
  unfolding step
  act_of i a p = elim (lookup i p.streams) [
    | none ↦ none
    | some st ↦ elim (step rpc st.node_key timeout a (view p st)) [
      | none ↦ none
      | some s ↦
          some
            (record p { registry = s.registry; streams = insert i (own st.node_key s) p.streams })
    ]
  ]

  -- `none` where the move is not possible; nothing moves in a process that has crashed.
  unfoldable pub move : Move TcpAddr RpcError → Process RpcError → Option (Process RpcError)
  unfolding connect act_of has_crashed
  move (connects peer) p = if has_crashed p.streams then none else some (connect peer p)
  move (passes d) p = if has_crashed p.streams then none else some (record p { now = p.now + d })
  move (acts i a) p =
      let next = act_of i a p in
      if has_crashed p.streams then none else if is_local a then next else none

  -- A sequence of moves; `none` if one of them is not possible.
  unfoldable pub run : List (Move TcpAddr RpcError) → Process RpcError → Option (Process RpcError)
  run [] p = some p
  run (m ∷ rest) p = elim (move m p) [ none ↦ none | some q ↦ run rest q ]

  -- The key of the node that a move brings, if its set-up succeeds.
  unfoldable pub key_brought : Move TcpAddr RpcError → Process RpcError → List Str
  key_brought (connects peer) p = elim (report_health_status net peer iface p.registry) [
    | err e ↦ []
    | ok session ↦ session.node_key ∷ []
  ]
  key_brought (passes d) p = []
  key_brought (acts i a) p = []

  -- The processes that moves lead to, with the keys of the nodes that have connected.
  pub data Reach (now : ℕ) : List Str → Process RpcError → Type 0 where
    begin : Reach now [] (boot now)
    next :
        {keys : List Str} {p q : Process RpcError} (m : Move TcpAddr RpcError)
        → Reach now keys p
        → move m p ≡ some q
        → Reach now (key_brought m p ++ keys) q
