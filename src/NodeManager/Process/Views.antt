-- ===== src/NodeManager/Process/Views.antt =====
-- What holds of the health streams of a process of node_manager.go, and of their shared registry.
use gale_lb.Prelude.{ℕ, ◌≡◌, List, some, false, Occurs, IsUnique}
use gale_lb.Prelude.Equality.{◌==◌, nat_eq, bytes_eq}
use gale_lb.Prelude.Map.{Map, lookup}
use gale_lb.Prelude.Text.{Str}
use gale_lb.Consensus.{Rpc}
use gale_lb.Registry.{NodeRegistry, register_node}
use gale_lb.Registry.History.{Call, key_of, apply}
use gale_lb.Registry.Past.{IsPast}
use gale_lb.NodeManager.{Network}
use gale_lb.NodeManager.Stream.{
  Listener, receiving, sending_last, sending_error, sending_message, done, panicked, System, Action,
  waits, others, start, act, step,
}
use gale_lb.NodeManager.Stream
use gale_lb.NodeManager.Process.{Stream, Process, view, has_panicked}
use gale_lb.NodeManager.Process.Others.{act-others}

module _ (net : Network) (rpc : Rpc) (iface : Str) (timeout : ℕ) where
  open rpc use {RpcError}
  open net use {TcpAddr}

  -- The stream has come, from its start behind a registration, to what it is in the process.
  pub record Opened (p : Process RpcError) (st : Stream RpcError) : Type 0 where
    pub registry : NodeRegistry
    pub since : ℕ
    pub past : IsPast since registry
    pub reached :
        Stream.Reach rpc st.node_key timeout (register_node registry st.node_key) since (view p st)

  pub record Sound (keys : List Str) (p : Process RpcError) : Type 0 where
    pub known :
        (i : ℕ) (st : Stream RpcError) → lookup i p.streams ≡ some st → Occurs st.node_key keys
    pub apart :
        IsUnique keys
        → (i j : ℕ) (st su : Stream RpcError) → lookup i p.streams ≡ some st
        → lookup j p.streams ≡ some su
        → (i == j) ≡ false
        → (st.node_key == su.node_key) ≡ false
    pub past : IsPast p.now p.registry
    pub opened :
        IsUnique keys → (i : ℕ) (st : Stream RpcError) → lookup i p.streams ≡ some st → Opened p st

  -- Another node's call moves the registry under a stream.
  pub other_call :
      (p : Process RpcError) (st : Stream RpcError) (c : Call) (streams : Map ℕ (Stream RpcError))
      (next_id : ℕ)
      → has_panicked st.listener ≡ false
      → (key_of c == st.node_key) ≡ false
      → Opened p st
      → Opened (record p { registry = apply c p.registry; streams = streams; next_id = next_id }) st
  unfolding step
  other_call p st c streams next_id sane other o = record {
    registry = o.registry;
    since = o.since;
    past = o.past;
    reached =
        Stream.next (others c) other o.reached
          (act-others rpc st.node_key timeout st.listener c (view p st) sane);
  }
