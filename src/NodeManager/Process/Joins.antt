-- ===== src/NodeManager/Process/Joins.antt =====
-- A stream of node_manager.go joins the others.
use mathlib.Core.Path.{subst}
use gale_lb.Prelude.{
  ℕ, ◌+◌, ◌≡◌, sym, ap, inl, inr, List, ◌∷◌, Option, some, false, arith, Bool-cases, ok, Occurs,
  IsUnique,
}
use gale_lb.Prelude.Equality.{◌==◌, nat_eq, bytes_eq, eq_iff}
use gale_lb.Prelude.Map.{lookup}
use gale_lb.Prelude.Text.{Str}
use gale_lb.Consensus.{Rpc}
use gale_lb.Registry.{register_node}
use gale_lb.Registry.History.{registers, apply}
use gale_lb.Registry.Past.{IsPast, register_node-IsPast}
use gale_lb.NodeManager.{Network, Peer, Session, report_health_status}
use gale_lb.NodeManager.Setup.{opened_lem}
use gale_lb.NodeManager.Stream.{
  Listener, receiving, sending_last, sending_error, sending_message, done, panicked, System, Action,
  waits, others, start, act, step,
}
use gale_lb.NodeManager.Stream
use gale_lb.NodeManager.Process.{Stream, Process, own, has_crashed}
use gale_lb.NodeManager.Process.Rule.{with_stream}
use gale_lb.NodeManager.Process.Others.{has_panicked-lookup, found_cases}
use gale_lb.NodeManager.Process.Views.{Opened, Sound, other_call}

module _ (net : Network) (rpc : Rpc) (iface : Str) (timeout : ℕ) where
  open rpc use {RpcError}
  open net use {TcpAddr}

  module _ (keys : List Str) (p : Process RpcError) (h : Sound net rpc iface timeout keys p)
      (sane : has_crashed p.streams ≡ false) where
    module _ (peer : Option (Peer TcpAddr)) (session : Session)
        (set_up : report_health_status net peer iface p.registry ≡ ok session) where
      abbrev fresh : Stream RpcError
      fresh = own session.node_key (start rpc session.node_key timeout session.registry p.now)

      registered : session.registry ≡ register_node p.registry session.node_key
      registered =
          let (addr, from, key, mac, made) = opened_lem net peer iface p.registry set_up in made

      -- The key of the new node differs from those of the nodes that are there.
      new_key :
          (i : ℕ) (st : Stream RpcError)
          → IsUnique (session.node_key ∷ keys)
          → lookup i p.streams ≡ some st
          → (session.node_key == st.node_key) ≡ false
      new_key i st (absent, u) e = elim (Bool-cases (session.node_key == st.node_key)) [
        | inr other ↦ other
        | inl same ↦ absurd (
            absent (
              subst (λ k. Occurs k keys) (sym ((eq_iff session.node_key st.node_key).0 same))
                (h.known i st e)))
      ]

      connect-IsPast : IsPast p.now session.registry
      connect-IsPast =
          subst (IsPast p.now) (sym registered)
            (register_node-IsPast p.now p.registry session.node_key h.past)

      connect-apart :
          IsUnique (session.node_key ∷ keys)
          → (i j : ℕ) (st su : Stream RpcError)
          → lookup i (with_stream net rpc iface timeout session p).streams ≡ some st
          → lookup j (with_stream net rpc iface timeout session p).streams ≡ some su
          → (i == j) ≡ false
          → (st.node_key == su.node_key) ≡ false
      connect-apart u i j st su e f ne = elim (found_cases p.next_id i fresh st p.streams e) [
        | inl (here, same) ↦ elim (found_cases p.next_id j fresh su p.streams f) [
          | inl (here', same') ↦ absurd (ground (arith, here, here', eq_iff i j))
          | inr (apart, f') ↦
              subst (λ (x : Stream RpcError). (x.node_key == su.node_key) ≡ false) same
                (new_key j su u f')
        ]
        | inr (apart, e') ↦ elim (found_cases p.next_id j fresh su p.streams f) [
          | inl (here', same') ↦
              subst (λ (x : Stream RpcError). (st.node_key == x.node_key) ≡ false) same'
                (ground (
                  arith,
                  new_key i st u e',
                  eq_iff session.node_key st.node_key,
                  eq_iff st.node_key session.node_key,
                ))
          | inr (apart', f') ↦ h.apart (u.1) i j st su e' f' ne
        ]
      ]

      connect-opened :
          IsUnique (session.node_key ∷ keys)
          → (i : ℕ) (st : Stream RpcError)
          → lookup i (with_stream net rpc iface timeout session p).streams ≡ some st
          → Opened net rpc iface timeout (with_stream net rpc iface timeout session p) st
      unfolding apply
      connect-opened u i st e = elim (found_cases p.next_id i fresh st p.streams e) [
        | inl (here, same) ↦
            subst (Opened net rpc iface timeout (with_stream net rpc iface timeout session p)) same
              (record {
                registry = p.registry;
                since = p.now;
                past = h.past;
                reached =
                    subst
                      (λ n.
                        Stream.Reach rpc session.node_key timeout n p.now
                          (start rpc session.node_key timeout session.registry p.now))
                      registered Stream.begin;
              })
        | inr (apart, e') ↦
            subst
              (λ n.
                Opened net rpc iface timeout
                  (record (with_stream net rpc iface timeout session p) { registry = n }) st)
              (sym registered)
              (other_call net rpc iface timeout p st (registers session.node_key)
                (with_stream net rpc iface timeout session p).streams (p.next_id + 1)
                (has_panicked-lookup i st p.streams sane e') (new_key i st u e')
                (h.opened (u.1) i st e'))
      ]

      pub connect-Sound :
          Sound net rpc iface timeout
            (session.node_key ∷ keys)
            (with_stream net rpc iface timeout session p)
      connect-Sound = record {
        known = λ i st e. elim (found_cases p.next_id i fresh st p.streams e) [
          | inl (here, same) ↦ inl (ap (λ (x : Stream RpcError). x.node_key) (sym same))
          | inr (apart, e') ↦ inr (h.known i st e')
        ];
        apart = connect-apart;
        past = connect-IsPast;
        opened = connect-opened;
      }
