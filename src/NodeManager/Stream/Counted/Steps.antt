-- ===== src/NodeManager/Stream/Counted/Steps.antt =====
-- Every action of a health stream of node_manager.go keeps the account of its reports.
use mathlib.Core.Path.{subst}
use gale_lb.Prelude.{
  ℕ, ◌+◌, ◌%◌, ◌≡◌, ◌∙◌, inl, inr, Option, none, some, arith, nat_beq, Bool-cases, Option-cases,
}
use gale_lb.Prelude.Equality.{bytes_eq, eq_refl}
use gale_lb.Prelude.Text.{Str}
use gale_lb.Consensus.{Rpc, HealthStatus, not_serving, shutting_down}
use gale_lb.Registry.{Node, uint_mod}
use gale_lb.Registry.History.{lookup-report_new_health_check}
use gale_lb.NodeManager.Stream.{
  running, Listener, receiving, sending_last, sending_error, sending_message, done, panicked,
  System, receives, received, send, on_message,
}
use gale_lb.NodeManager.Stream.Counted.{in_hand, in_chan, brings, Balanced}

module _ (rpc : Rpc) (node_key : Str) (timeout : ℕ) (v : Node) where
  open rpc use {RpcError}

  -- A message passes from hand to hand.
  pub moved :
      (k k' : ℕ) (s : System RpcError) (l : Listener RpcError) (m : Option (Option HealthStatus))
      (e : Option (Option RpcError))
      → (in_hand rpc l + in_chan rpc m) + k ≡ k' + (in_hand rpc s.listener + in_chan rpc s.msg_chan)
      → Balanced rpc node_key v k s
      → Balanced rpc node_key v k' (record s { listener = l; msg_chan = m; err_chan = e })
  moved k k' s l m e same b = record {
    runs = b.runs;
    entry = b.entry;
    held = b.held;
    counted = b.counted;
    count = b.count;
    balance = omega (arith, same, b.balance);
  }

  pub received-Balanced :
      (k : ℕ) (req : Option HealthStatus) (e : Option RpcError) (s : System RpcError)
      → s.listener ≡ receiving
      → Balanced rpc node_key v k s
      → Balanced rpc node_key v
          (brings rpc (receives req e) + k)
          (record s { listener = received rpc node_key timeout req e })
  unfolding received
  received-Balanced k req e s idle b =
      moved k (brings rpc (receives req e) + k) s (received rpc node_key timeout req e) s.msg_chan
        s.err_chan (flight e) b
    where
      flight :
          (e : Option RpcError)
          → (in_hand rpc (received rpc node_key timeout req e) + in_chan rpc s.msg_chan) + k
            ≡ (brings rpc (receives req e) + k) + (in_hand rpc s.listener + in_chan rpc s.msg_chan)
      flight none = ground (arith, idle)
      flight (some e) = ground (arith, idle)

  pub send-Balanced :
      (k : ℕ) (l : Listener RpcError) (s t : System RpcError)
      → s.listener ≡ l
      → Balanced rpc node_key v k s
      → send rpc node_key timeout l s ≡ some t
      → Balanced rpc node_key v k t
  unfolding send
  send-Balanced k (sending_last e) s t at b h = elim (Option-cases s.err_chan) [
    | inl free ↦
        subst (Balanced rpc node_key v k) (ground (arith, b.runs))
          (moved k k s done s.msg_chan (some e) (ground (arith, at)) b)
    | inr (other, full) ↦ absurd (ground (arith, b.runs))
  ]
  send-Balanced k (sending_error e req) s t at b h = elim (Option-cases s.err_chan) [
    | inl free ↦
        subst (Balanced rpc node_key v k) (ground (arith, b.runs))
          (moved k k s (sending_message req) s.msg_chan (some e) (ground (arith, at)) b)
    | inr (other, full) ↦ absurd (ground (arith, b.runs))
  ]
  send-Balanced k (sending_message req) s t at b h = elim (Option-cases s.msg_chan) [
    | inl free ↦
        subst (Balanced rpc node_key v k) (ground (arith, b.runs))
          (moved k k s receiving (some req) s.err_chan (ground (arith, at, free)) b)
    | inr (other, full) ↦ absurd (ground (arith, b.runs))
  ]
  send-Balanced k receiving s t at b h = absurd (ground arith)
  send-Balanced k done s t at b h = absurd (ground arith)
  send-Balanced k panicked s t at b h = absurd (ground arith)

  pub on_message-Balanced :
      (k : ℕ) (req : Option HealthStatus) (s : System RpcError)
      → s.msg_chan ≡ some req
      → Balanced rpc node_key v k s
      → (on_message rpc node_key timeout req s).handler ≡ running
      → Balanced rpc node_key v k (on_message rpc node_key timeout req s)
  unfolding on_message
  on_message-Balanced k req s there b on =
      elim (Bool-cases (nat_beq (rpc.get_status req) not_serving)) [
        | inl idle ↦ rw idle (record {
          runs = b.runs;
          entry = b.entry;
          held = b.held;
          counted = b.counted;
          count = b.count;
          balance = ground (arith, b.balance, there, idle);
        })
        | inr awake ↦ elim (Bool-cases (nat_beq (rpc.get_status req) shutting_down)) [
          | inl bye ↦ absurd (ground (arith, on, awake, bye))
          | inr alive ↦
              rw (awake, alive)
                (record {
                  runs = b.runs;
                  entry = record {
                    continuous_health_checks = (b.entry.continuous_health_checks + 1) % uint_mod;
                    last_health_check = s.now;
                  };
                  held =
                      lookup-report_new_health_check s.registry node_key node_key s.now
                      ∙ rw (eq_refl node_key, b.held);
                  counted = b.counted + 1;
                  count = omega (arith, b.count);
                  balance = ground (arith, b.balance, there, awake, alive);
                })
        ]
      ]
