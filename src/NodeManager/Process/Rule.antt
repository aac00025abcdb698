-- ===== src/NodeManager/Process/Rule.antt =====
-- Induction over the moves of the process of node_manager.go.
use mathlib.Core.Path.{subst}
use gale_lb.Prelude.{
  ℕ, ◌+◌, ◌≡◌, inl, inr, List, [], ◌∷◌, ◌++◌, Option, some, true, false, arith, Bool-cases,
  Option-cases, ok, Result-cases,
}
use gale_lb.Prelude.Equality.{nat_eq}
use gale_lb.Prelude.Map.{lookup, insert}
use gale_lb.Prelude.Text.{Str}
use gale_lb.Consensus.{Rpc}
use gale_lb.NodeManager.{Network, Peer, Session, report_health_status}
use gale_lb.NodeManager.Stream.{System, Action, start, step}
use gale_lb.NodeManager.Process.{
  Stream, Process, view, own, has_crashed, is_local, Move, connects, passes, acts, boot, connect,
  act_of, move, key_brought, Reach, begin, next,
}

module _ (net : Network) (rpc : Rpc) (iface : Str) (timeout : ℕ) where
  open rpc use {RpcError}
  open net use {TcpAddr}

  abbrev pub with_stream : Session → Process RpcError → Process RpcError
  with_stream session p = record p {
    registry = session.registry;
    streams =
        insert p.next_id
          (own session.node_key (start rpc session.node_key timeout session.registry p.now))
          p.streams;
    next_id = p.next_id + 1;
  }

  abbrev pub with_action :
      ℕ → Stream RpcError → System RpcError → Process RpcError → Process RpcError
  with_action i st s p = record p {
    registry = s.registry;
    streams = insert i (own st.node_key s) p.streams;
  }

  -- What holds of a process and the keys of its nodes, and is kept by each kind of move.
  pub record Kept (P : List Str → Process RpcError → Type 0) (keys : List Str)
      (p : Process RpcError) : Type 0 where
    pub by_connect :
        (peer : Option (Peer TcpAddr)) (session : Session)
        → report_health_status net peer iface p.registry ≡ ok session
        → P (session.node_key ∷ keys) (with_stream session p)
    pub by_wait : (d : ℕ) → P keys (record p { now = p.now + d })
    pub by_action :
        (i : ℕ) (a : Action RpcError) (st : Stream RpcError) (s : System RpcError)
        → is_local a ≡ true
        → lookup i p.streams ≡ some st
        → step rpc st.node_key timeout a (view p st) ≡ some s
        → P keys (with_action i st s p)

  connect_rule :
      (P : List Str → Process RpcError → Type 0) (keys : List Str) (p : Process RpcError)
      → P keys p
      → Kept P keys p
      → (peer : Option (Peer TcpAddr))
      → P
          (key_brought net rpc iface timeout (connects peer) p ++ keys)
          (connect net rpc iface timeout peer p)
  unfolding connect key_brought
  connect_rule P keys p h kept peer =
      elim (Result-cases (report_health_status net peer iface p.registry)) [
        | inr (e, refused) ↦ rw (connect, key_brought, refused) h
        | inl (session, set_up) ↦
            rw (connect, key_brought, set_up) (kept.by_connect peer session set_up)
      ]

  act_rule :
      (P : List Str → Process RpcError → Type 0) (keys : List Str) (p q : Process RpcError)
      → Kept P keys p
      → (i : ℕ) (a : Action RpcError) → is_local a ≡ true
      → act_of net rpc iface timeout i a p ≡ some q
      → P keys q
  unfolding act_of
  act_rule P keys p q kept i a loc h = elim (Option-cases (lookup i p.streams)) [
    | inl missing ↦ absurd (ground arith)
    | inr (st, found) ↦ elim (Option-cases (step rpc st.node_key timeout a (view p st))) [
      | inl stuck ↦ absurd (ground arith)
      | inr (s, stepped) ↦
          let done : with_action i st s p ≡ q = ground arith in
          subst (P keys) done (kept.by_action i a st s loc found stepped)
    ]
  ]

  move_rule :
      (P : List Str → Process RpcError → Type 0) (keys : List Str) (p q : Process RpcError)
      → P keys p
      → (has_crashed p.streams ≡ false → Kept P keys p)
      → (m : Move TcpAddr RpcError) → move net rpc iface timeout m p ≡ some q
      → P (key_brought net rpc iface timeout m p ++ keys) q
  unfolding move key_brought
  move_rule P keys p q h kept m e = elim (Bool-cases (has_crashed p.streams)) [
    | inl crashed ↦ absurd (crash_stops m crashed e)
    | inr sane ↦ by_kind m (kept sane) sane e
  ]
    where
      crash_stops :
          (m : Move TcpAddr RpcError)
          → has_crashed p.streams ≡ true
          → ¬ (move net rpc iface timeout m p ≡ some q)
      crash_stops (connects peer) crashed e = absurd (ground arith)
      crash_stops (passes d) crashed e = absurd (ground arith)
      crash_stops (acts i a) crashed e = absurd (ground arith)

      by_kind :
          (m : Move TcpAddr RpcError)
          → Kept P keys p
          → has_crashed p.streams ≡ false
          → move net rpc iface timeout m p ≡ some q
          → P (key_brought net rpc iface timeout m p ++ keys) q
      by_kind (connects peer) k sane e =
          let there : connect net rpc iface timeout peer p ≡ q = ground arith in
          subst (P (key_brought net rpc iface timeout (connects peer) p ++ keys)) there
            (connect_rule P keys p h k peer)
      by_kind (passes d) k sane e =
          let there : record p { now = p.now + d } ≡ q = ground arith in
          subst (P keys) there (k.by_wait d)
      by_kind (acts i a) k sane e = elim (Bool-cases (is_local a)) [
        | inl loc ↦ act_rule P keys p q k i a loc (ground arith)
        | inr remote ↦ absurd (ground arith)
      ]

  -- What holds at the start, and is kept by the moves of a process that has not crashed, always holds.
  pub reach_rule :
      (P : List Str → Process RpcError → Type 0) (now : ℕ)
      → P [] (boot net rpc iface timeout now)
      → ((keys : List Str) (p : Process RpcError)
          → P keys p
          → has_crashed p.streams ≡ false
          → Kept P keys p)
      → {keys : List Str} {p : Process RpcError} → Reach net rpc iface timeout now keys p
      → P keys p
  reach_rule P now base kept begin = base
  reach_rule P now base kept (next {keys = keys} {p = p} {q = q} m r e) =
      let h = reach_rule P now base kept r in move_rule P keys p q h (kept keys p h) m e
