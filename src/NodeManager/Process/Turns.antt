-- ===== src/NodeManager/Process/Turns.antt =====
-- A stream of node_manager.go takes a turn while the others stand, or all of them wait.
use mathlib.Core.Path.{subst}
use gale_lb.Prelude.{ℕ, ◌+◌, ◌≡◌, refl, sym, ap, inl, inr, List, some, true, false, arith, Occurs}
use gale_lb.Prelude.Equality.{◌==◌, nat_eq, bytes_eq}
use gale_lb.Prelude.Map.{lookup}
use gale_lb.Prelude.Text.{Str}
use gale_lb.Consensus.{Rpc}
use gale_lb.Registry.{register_node}
use gale_lb.Registry.History.{checks, fails, apply}
use gale_lb.Registry.Past.{
  IsPast, IsPast-weaken, report_new_health_check-IsPast, report_node_failure-IsPast,
}
use gale_lb.NodeManager.{Network}
use gale_lb.NodeManager.Stream.{
  Listener, receiving, sending_last, sending_error, sending_message, done, panicked, System, Action,
  waits, others, receives, sends, takes_message, takes_error, takes_timer, others, start, act, step,
}
use gale_lb.NodeManager.Stream
use gale_lb.NodeManager.Process.{Stream, Process, view, own, has_panicked, has_crashed, is_local}
use gale_lb.NodeManager.Process.Calls.{Touches, nothing, checked, failed, step-Touches}
use gale_lb.NodeManager.Process.Rule.{with_action}
use gale_lb.NodeManager.Process.Others.{act-waits, has_panicked-lookup, found_cases}
use gale_lb.NodeManager.Process.Views.{Opened, Sound, other_call}

local-IsApart :
    (rpc : Rpc) (node_key : Str) (timeout : ℕ) (a : Action rpc.RpcError)
    → is_local a ≡ true
    → Stream.IsApart rpc node_key timeout a
local-IsApart rpc node_key timeout (others c) loc = absurd (cc)
local-IsApart rpc node_key timeout (waits d) loc = tt
local-IsApart rpc node_key timeout (receives req e) loc = tt
local-IsApart rpc node_key timeout sends loc = tt
local-IsApart rpc node_key timeout takes_message loc = tt
local-IsApart rpc node_key timeout takes_error loc = tt
local-IsApart rpc node_key timeout takes_timer loc = tt

module _ (net : Network) (rpc : Rpc) (iface : Str) (timeout : ℕ) where
  open rpc use {RpcError}
  open net use {TcpAddr}

  module _ (keys : List Str) (p : Process RpcError) (h : Sound net rpc iface timeout keys p)
      (sane : has_crashed p.streams ≡ false) where
    pub wait-Sound : (d : ℕ) → Sound net rpc iface timeout keys (record p { now = p.now + d })
    unfolding step
    wait-Sound d = record {
      known = h.known;
      apart = h.apart;
      past = IsPast-weaken p.now d p.registry h.past;
      opened = λ u i st e.
          let o = h.opened u i st e in
          record {
            registry = o.registry;
            since = o.since;
            past = o.past;
            reached = Stream.next (waits d) tt o.reached (
                act-waits rpc st.node_key timeout st.listener d (view p st)
                  (has_panicked-lookup i st p.streams sane e));
          };
    }

    module _ (i : ℕ) (a : Action RpcError) (st : Stream RpcError) (s : System RpcError)
        (loc : is_local a ≡ true) (found : lookup i p.streams ≡ some st)
        (stepped : step rpc st.node_key timeout a (view p st) ≡ some s) where
      abbrev after : Process RpcError
      after = with_action net rpc iface timeout i st s p

      -- A stream has its key from before.
      before :
          (j : ℕ) (su : Stream RpcError)
          → lookup j after.streams ≡ some su
          → (sv : Stream RpcError) × (lookup j p.streams ≡ some sv) × (sv.node_key ≡ su.node_key)
      before j su e = elim (found_cases i j (own st.node_key s) su p.streams e) [
        | inl (here, same) ↦ (
          st,
          subst (λ k. lookup k p.streams ≡ some st) here found,
          ap (λ (x : Stream RpcError). x.node_key) same,
        )
        | inr (apart, e') ↦ (su, e', refl)
      ]

      action-IsPast : Touches st.node_key (view p st) s → IsPast p.now s.registry
      unfolding apply
      action-IsPast (nothing e t) = subst (IsPast p.now) (sym e) h.past
      action-IsPast (checked e t) =
          subst (IsPast p.now) (sym e)
            (report_new_health_check-IsPast p.now p.registry st.node_key h.past)
      action-IsPast (failed e t) =
          subst (IsPast p.now) (sym e)
            (report_node_failure-IsPast p.now p.registry st.node_key h.past)

      itself :
          Touches st.node_key (view p st) s
          → Opened net rpc iface timeout p st
          → Opened net rpc iface timeout after (own st.node_key s)
      itself t o = record {
        registry = o.registry;
        since = o.since;
        past = o.past;
        reached =
            subst
              (λ (x : System RpcError).
                Stream.Reach rpc st.node_key timeout (register_node o.registry st.node_key) o.since
                  x)
              (same_time t)
              (Stream.next a (local-IsApart rpc st.node_key timeout a loc) o.reached stepped);
      }
        where
          same_time : Touches st.node_key (view p st) s → s ≡ view after (own st.node_key s)
          same_time (nothing e t) = λ k. record s { now = t k }
          same_time (checked e t) = λ k. record s { now = t k }
          same_time (failed e t) = λ k. record s { now = t k }

      another :
          (su : Stream RpcError)
          → has_panicked su.listener ≡ false
          → (st.node_key == su.node_key) ≡ false
          → Touches st.node_key (view p st) s
          → Opened net rpc iface timeout p su
          → Opened net rpc iface timeout after su
      another su live other (nothing e t) o =
          subst (λ n. Opened net rpc iface timeout (record after { registry = n }) su) (sym e)
            (record { registry = o.registry; since = o.since; past = o.past; reached = o.reached })
      another su live other (checked e t) o =
          subst (λ n. Opened net rpc iface timeout (record after { registry = n }) su) (sym e)
            (other_call net rpc iface timeout p su (checks st.node_key p.now) after.streams
              p.next_id live other o)
      another su live other (failed e t) o =
          subst (λ n. Opened net rpc iface timeout (record after { registry = n }) su) (sym e)
            (other_call net rpc iface timeout p su (fails st.node_key) after.streams p.next_id live
              other o)

      pub action-Sound : Sound net rpc iface timeout keys after
      action-Sound =
          let touched = step-Touches rpc st.node_key timeout a (view p st) s loc stepped in
          record {
            known = λ j su e.
                let (sv, e', same) = before j su e in
                subst (λ k. Occurs k keys) same (h.known j sv e');
            apart = λ u j k su sv e f ne.
                let (su', e', same) = before j su e in
                let (sv', f', same') = before k sv f in
                ground (arith, h.apart u j k su' sv' e' f' ne);
            past = action-IsPast touched;
            opened = λ u j su e. elim (found_cases i j (own st.node_key s) su p.streams e) [
              | inl (here, same) ↦
                  subst (Opened net rpc iface timeout after) same
                    (itself touched (h.opened u i st found))
              | inr (apart, e') ↦
                  another su (has_panicked-lookup j su p.streams sane e')
                    (h.apart u i j st su found e' apart) touched (h.opened u j su e')
            ];
          }
