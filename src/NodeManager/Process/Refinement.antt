-- ===== src/NodeManager/Process/Refinement.antt =====
-- Each health stream of a process of node_manager.go behaves as one on its own.
use gale_lb.Prelude.{ℕ, ◌+◌, ◌≤◌, ◌≡◌, refl, ◌∙◌, inl, inr, List, some, Option-cases, IsUnique}
use gale_lb.Prelude.Equality.{nat_eq, bytes_eq, eq_refl}
use gale_lb.Prelude.Map.{lookup}
use gale_lb.Prelude.Text.{Str}
use gale_lb.Consensus.{Rpc}
use gale_lb.Registry.{Node, new_node, NodeRegistry, register_node}
use gale_lb.Registry.History.{lookup-register_node}
use gale_lb.Registry.Past.{new_registry-IsPast, register_node-IsPast}
use gale_lb.NodeManager.{Network}
use gale_lb.NodeManager.Stream.Effects.{timed_out_late}
use gale_lb.NodeManager.Stream.{returned, timed_out}
use gale_lb.NodeManager.Process.{Stream, Process, Reach}
use gale_lb.NodeManager.Process.Rule.{reach_rule}
use gale_lb.NodeManager.Process.Views.{Opened, Sound}
use gale_lb.NodeManager.Process.Joins.{connect-Sound}
use gale_lb.NodeManager.Process.Turns.{wait-Sound, action-Sound}

module _ (net : Network) (rpc : Rpc) (iface : Str) (timeout : ℕ) (now : ℕ) where
  open rpc use {RpcError}
  open net use {TcpAddr}

  Reach-Sound :
      {keys : List Str} {p : Process RpcError}
      → Reach net rpc iface timeout now keys p
      → Sound net rpc iface timeout keys p
  unfolding lookup
  Reach-Sound =
      reach_rule net rpc iface timeout (Sound net rpc iface timeout) now
        (record {
          known = λ i st e. absurd (cc (e));
          apart = λ u i j st su e f ne. absurd (cc (e));
          past = new_registry-IsPast now;
          opened = λ u i st e. absurd (cc (e));
        })
        (λ keys p h sane. record {
          by_connect = connect-Sound net rpc iface timeout keys p h sane;
          by_wait = wait-Sound net rpc iface timeout keys p h sane;
          by_action = action-Sound net rpc iface timeout keys p h sane;
        })

  -- In a process to which any number of nodes have connected, each over an address of its own, and whose
  -- streams have taken their steps in any order: what each stream has come to, with the shared registry and
  -- clock, a stream on its own comes to as well, from its start behind the registration of its node in a
  -- registry without health checks from the future.
  pub Reach-Opened :
      {keys : List Str} {p : Process RpcError}
      → Reach net rpc iface timeout now keys p
      → IsUnique keys
      → (i : ℕ) (st : Stream RpcError) → lookup i p.streams ≡ some st
      → Opened net rpc iface timeout p st
  Reach-Opened r u i st e = (Reach-Sound r).opened u i st e

  -- In a process to which any number of nodes have connected, each over an address of its own, and whose
  -- streams have taken their steps in any order: a stream that has timed out did so no earlier than a
  -- timeout after the latest health check of its node, and the node still has its entry, with a count of 0,
  -- whatever the other streams have done since.
  pub process_timed_out_late :
      {keys : List Str} {p : Process RpcError}
      → Reach net rpc iface timeout now keys p
      → IsUnique keys
      → (i : ℕ) (st : Stream RpcError) → lookup i p.streams ≡ some st
      → st.handler ≡ returned timed_out
      → (w : Node) × (lookup st.node_key p.registry.registry ≡ some w)
        × (w.continuous_health_checks ≡ 0)
        × (w.last_health_check + timeout ≤ p.now)
  process_timed_out_late {p = p} r u i st e ended =
      let o = Reach-Opened r u i st e in
      let (v, held) = entry o.registry st.node_key in
      timed_out_late rpc st.node_key timeout (register_node o.registry st.node_key) o.since v held
        (register_node-IsPast o.since o.registry st.node_key o.past st.node_key v held) o.reached
        ended
    where
      entry :
          (n : NodeRegistry) (k : Str)
          → (v : Node) × (lookup k (register_node n k).registry ≡ some v)
      entry n k = elim (Option-cases (lookup k n.registry)) [
        | inl missing ↦ (new_node, lookup-register_node n k k ∙ rw (eq_refl k, missing) refl)
        | inr (v, found) ↦ (v, lookup-register_node n k k ∙ rw (eq_refl k, found) refl)
      ]
