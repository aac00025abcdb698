-- ===== src/NodeManager/Stream/Counted/Runs.antt =====
-- The account of the reports over a whole run of a health stream of node_manager.go.
use mathlib.Core.Path.{subst}
use gale_lb.Prelude.{
  All, ℕ, ◌+◌, ◌%◌, ◌≡◌, refl, sym, ◌∙◌, inl, inr, List, [], ◌∷◌, none, some, arith, Bool-cases,
  Option-cases,
}
use gale_lb.Prelude.Equality.{bytes_eq}
use gale_lb.Prelude.Map.{lookup}
use gale_lb.Prelude.Text.{Str}
use gale_lb.Consensus.{Rpc}
use gale_lb.Registry.{Node, NodeRegistry, uint_mod}
use gale_lb.Registry.History.{Call, key_of, lookup-apply_other}
use gale_lb.Registry.History
use gale_lb.NodeManager.{grpc_err_unrecoverable}
use gale_lb.NodeManager.Stream.{
  Handler, running, returned, Listener, receiving, panicked, System, Action, receives, sends,
  takes_message, takes_error, takes_timer, waits, others, start, on_message, on_error, on_timer,
  select, act, step, run, IsApart,
}
use gale_lb.NodeManager.Stream.Counted.{in_hand, in_chan, brings, arrived, Balanced}
use gale_lb.NodeManager.Stream.Counted.Steps.{
  moved, received-Balanced, send-Balanced, on_message-Balanced,
}
use gale_lb.NodeManager.Stream.Counted.Returned.{run-returned}

module _ (rpc : Rpc) (node_key : Str) (timeout : ℕ) where
  open rpc use {RpcError}

  module _ (v : Node) where
    select-Balanced :
        (k : ℕ) (h : Handler RpcError) (a : Action RpcError) (s t : System RpcError)
        → Balanced rpc node_key v k s
        → select rpc node_key timeout h a s ≡ some t
        → t.handler ≡ running
        → Balanced rpc node_key v k t
    unfolding select on_error on_timer
    select-Balanced k running takes_message s t b h on = elim (Option-cases s.msg_chan) [
      | inl nothing ↦ absurd (ground arith)
      | inr (req, there) ↦
          let landed : on_message rpc node_key timeout req s ≡ t = ground arith in
          subst (Balanced rpc node_key v k) landed (
            on_message-Balanced rpc node_key timeout v k req s there b
              (subst (λ (u : System RpcError). u.handler ≡ running) (sym landed) on))
    ]
    select-Balanced k running takes_error s t b h on = elim (Option-cases s.err_chan) [
      | inl nothing ↦ absurd (ground arith)
      | inr (e, there) ↦ elim (Bool-cases (grpc_err_unrecoverable rpc e)) [
        | inl fatal ↦ absurd (ground (arith, on))
        | inr minor ↦
            subst (Balanced rpc node_key v k) (ground arith)
              (moved rpc node_key timeout v k k s s.listener s.msg_chan none (omega arith) b)
      ]
    ]
    select-Balanced k running takes_timer s t b h on = absurd (ground (arith, on))
    select-Balanced k _ _ s t b h on = absurd (ground arith)

    same_total :
        (k k' : ℕ) (s : System RpcError)
        → k ≡ k'
        → Balanced rpc node_key v k s
        → Balanced rpc node_key v k' s
    same_total k k' s e = subst (λ n. Balanced rpc node_key v n s) e

    act-Balanced :
        (k : ℕ) (l : Listener RpcError) (a : Action RpcError) (s t : System RpcError)
        → IsApart rpc node_key timeout a
        → s.listener ≡ l
        → Balanced rpc node_key v k s
        → act rpc node_key timeout l a s ≡ some t
        → t.handler ≡ running
        → Balanced rpc node_key v (brings rpc a + k) t
    unfolding act
    act-Balanced k panicked a s t apart at b h on = absurd (ground arith)
    act-Balanced k receiving (receives req e) s t apart at b h on =
        subst (Balanced rpc node_key v (brings rpc (receives req e) + k)) (ground arith)
          (received-Balanced rpc node_key timeout v k req e s at b)
    act-Balanced k l (receives req e) s t apart at b h on = absurd (ground arith)
    act-Balanced k l sends s t apart at b h on =
        same_total k (0 + k) t (omega arith) (send-Balanced rpc node_key timeout v k l s t at b h)
    act-Balanced k l (waits d) s t apart at b h on = same_total k (0 + k) t (omega arith) (
        subst (Balanced rpc node_key v k) (ground arith) (
          let u : Balanced rpc node_key v k (record s { now = s.now + d }) = record {
            runs = b.runs;
            entry = b.entry;
            held = b.held;
            counted = b.counted;
            count = b.count;
            balance = b.balance;
          } in
          u))
    act-Balanced k l (others c) s t apart at b h on = same_total k (0 + k) t (omega arith) (
        subst (Balanced rpc node_key v k) (ground arith) (
          let u : Balanced rpc node_key v k (record s { registry = History.apply c s.registry }) =
            record {
              runs = b.runs;
              entry = b.entry;
              held = lookup-apply_other c s.registry node_key apart ∙ b.held;
              counted = b.counted;
              count = b.count;
              balance = b.balance;
            } in
          u))
    act-Balanced k l takes_message s t apart at b h on =
        same_total k (0 + k) t (omega arith) (select-Balanced k s.handler takes_message s t b h on)
    act-Balanced k l takes_error s t apart at b h on =
        same_total k (0 + k) t (omega arith) (select-Balanced k s.handler takes_error s t b h on)
    act-Balanced k l takes_timer s t apart at b h on =
        same_total k (0 + k) t (omega arith) (select-Balanced k s.handler takes_timer s t b h on)

    run-Balanced :
        (k : ℕ) (acts : List (Action RpcError)) (s t : System RpcError)
        → All (IsApart rpc node_key timeout) acts
        → Balanced rpc node_key v k s
        → run rpc node_key timeout acts s ≡ some t
        → t.handler ≡ running
        → Balanced rpc node_key v (arrived rpc acts + k) t
    unfolding run step
    run-Balanced k [] s t others_apart b h on =
        same_total k (0 + k) t (omega arith) (subst (Balanced rpc node_key v k) (ground arith) b)
    run-Balanced k (a ∷ rest) s t (apart, others_apart) b h on =
        elim (Option-cases (step rpc node_key timeout a s)) [
          | inl stuck ↦ absurd (ground arith)
          | inr (u, e) ↦
              let later : run rpc node_key timeout rest u ≡ some t = ground arith in
              same_total (arrived rpc rest + (brings rpc a + k)) (arrived rpc (a ∷ rest) + k) t
                (omega arith)
                (run-Balanced (brings rpc a + k) rest u t others_apart
                  (act-Balanced k s.listener a s u apart refl b e (still u rest t later on)) later
                  on)
        ]
      where
        still :
            (u : System RpcError) (rest : List (Action RpcError)) (t : System RpcError)
            → run rpc node_key timeout rest u ≡ some t
            → t.handler ≡ running
            → u.handler ≡ running
        still u rest t later on = by_handler u.handler refl
          where
            by_handler : (h : Handler RpcError) → u.handler ≡ h → u.handler ≡ running
            by_handler running e = e
            by_handler (returned o) e =
                absurd (cc (run-returned rpc node_key timeout o rest u t e later, on))

  -- In any run of the only stream of a registered node, whose handler still runs: the messages that have arrived
  -- without a final error, but for those that say that the node does not serve or shuts down, are those that
  -- the registry has counted, modulo 2 ^ 64, those in the hands of the listener and those in the channel:
  -- none is lost and none is counted twice, and what comes along with another error counts as well.
  pub run_counts :
      (registry : NodeRegistry) (now : ℕ) (v : Node) (acts : List (Action RpcError))
      {s : System RpcError}
      → lookup node_key registry.registry ≡ some v
      → All (IsApart rpc node_key timeout) acts
      → run rpc node_key timeout acts (start rpc node_key timeout registry now) ≡ some s
      → s.handler ≡ running
      → (w : Node) × (counted : ℕ) × (lookup node_key s.registry.registry ≡ some w)
        × (w.continuous_health_checks % uint_mod
            ≡ (v.continuous_health_checks + counted) % uint_mod)
        × ((counted + in_hand rpc s.listener) + in_chan rpc s.msg_chan ≡ arrived rpc acts)
  run_counts registry now v acts {s} e apart h on =
      let b =
        run-Balanced v 0 acts (start rpc node_key timeout registry now) s apart
          (record {
            runs = refl;
            entry = v;
            held = e;
            counted = 0;
            count = omega arith;
            balance = omega arith;
          })
          h on in
      (b.entry, b.counted, b.held, b.count, omega (arith, b.balance))
