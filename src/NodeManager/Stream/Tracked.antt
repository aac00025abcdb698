-- ===== src/NodeManager/Stream/Tracked.antt =====
-- The registry entry, the deadline and the handler's result of a health stream, as its handler moves.
use mathlib.Core.Path.{subst}
use gale_lb.Prelude.{
  ℕ, ◌+◌, ◌≤◌, ◌≡◌, refl, ◌∙◌, ◌%◌, inl, inr, Option, some, true, arith, leb, nat_beq, Bool-cases,
  Option-cases,
}
use gale_lb.Prelude.Equality.{bytes_eq, eq_refl}
use gale_lb.Prelude.Map.{lookup}
use gale_lb.Prelude.Text.{Str}
use gale_lb.Consensus.{Rpc, HealthStatus, not_serving, shutting_down}
use gale_lb.Registry.{Node, uint_mod}
use gale_lb.Registry.History.{lookup-report_new_health_check, lookup-report_node_failure}
use gale_lb.NodeManager.{grpc_err_unrecoverable}
use gale_lb.NodeManager.Stream.{
  shut_down, unrecoverable, timed_out, Handler, running, returned, System, Action, takes_message,
  takes_error, takes_timer, on_message, on_error, on_timer, select,
}

module _ (rpc : Rpc) (node_key : Str) (timeout : ℕ) where
  open rpc use {RpcError}

  -- A node's health as the handler's state bounds it.
  abbrev pub Quiet : Handler RpcError → Node → Type 0
  Quiet running v = Unit {0}
  Quiet (returned shut_down) v = Unit {0}
  Quiet (returned timed_out) v = v.continuous_health_checks ≡ 0
  Quiet (returned (unrecoverable e)) v = v.continuous_health_checks ≡ 0

  abbrev pub Expired : Handler RpcError → ℕ → ℕ → Type 0
  Expired running deadline now = Unit {0}
  Expired (returned shut_down) deadline now = Unit {0}
  Expired (returned timed_out) deadline now = deadline ≤ now
  Expired (returned (unrecoverable e)) deadline now = Unit {0}

  -- The node has an entry; the deadline lies a timeout behind its latest health check; a stream that
  -- timed out did so stands its deadline or later; after a failure the entry counts no health check.
  pub record Tracked (s : System RpcError) : Type 0 where
    pub entry : Node
    pub held : lookup node_key s.registry.registry ≡ some entry
    pub timely : entry.last_health_check + timeout ≤ s.deadline
    pub expired : Expired s.handler s.deadline s.now
    pub quiet : Quiet s.handler entry

  on_message-Tracked :
      (req : Option HealthStatus) (s : System RpcError)
      → s.handler ≡ running
      → Tracked s
      → Tracked (on_message rpc node_key timeout req s)
  unfolding on_message
  on_message-Tracked req s stands i = elim (Bool-cases (nat_beq (rpc.get_status req) not_serving)) [
    | inl idle ↦ rw idle (record {
      entry = i.entry;
      held = i.held;
      timely = i.timely;
      expired = i.expired;
      quiet = i.quiet;
    })
    | inr awake ↦ rw awake (elim (Bool-cases (nat_beq (rpc.get_status req) shutting_down)) [
      | inl bye ↦
          rw bye
            (record { entry = i.entry; held = i.held; timely = i.timely; expired = tt; quiet = tt })
      | inr alive ↦ rw alive (record {
        entry = record {
          continuous_health_checks = (i.entry.continuous_health_checks + 1) % uint_mod;
          last_health_check = s.now;
        };
        held =
            lookup-report_new_health_check s.registry node_key node_key s.now
            ∙ rw (eq_refl node_key, i.held);
        timely = omega arith;
        expired = rw stands tt;
        quiet = rw stands tt;
      })
    ])
  ]

  on_error-Tracked :
      (e : Option RpcError) (s : System RpcError)
      → s.handler ≡ running
      → Tracked s
      → Tracked (on_error rpc node_key timeout e s)
  unfolding on_error
  on_error-Tracked e s stands i = elim (Bool-cases (grpc_err_unrecoverable rpc e)) [
    | inr minor ↦ rw minor (record {
      entry = i.entry;
      held = i.held;
      timely = i.timely;
      expired = i.expired;
      quiet = i.quiet;
    })
    | inl fatal ↦ rw fatal (record {
      entry = record (i.entry) { continuous_health_checks = 0 };
      held =
          lookup-report_node_failure s.registry node_key node_key ∙ rw (eq_refl node_key, i.held);
      timely = i.timely;
      expired = tt;
      quiet = refl;
    })
  ]

  on_timer-Tracked :
      (s : System RpcError)
      → s.handler ≡ running
      → leb s.deadline s.now ≡ true
      → Tracked s
      → Tracked (on_timer rpc node_key timeout s)
  unfolding on_timer
  on_timer-Tracked s stands late i = record {
    entry = record (i.entry) { continuous_health_checks = 0 };
    held = lookup-report_node_failure s.registry node_key node_key ∙ rw (eq_refl node_key, i.held);
    timely = i.timely;
    expired = ground arith;
    quiet = refl;
  }

  pub select-Tracked :
      (h : Handler RpcError) (a : Action RpcError) (s t : System RpcError)
      → s.handler ≡ h
      → Tracked s
      → select rpc node_key timeout h a s ≡ some t
      → Tracked t
  unfolding select
  select-Tracked running takes_message s t stands i h = elim (Option-cases s.msg_chan) [
    | inl e ↦ absurd (ground arith)
    | inr (req, e) ↦ subst Tracked (ground arith) (on_message-Tracked req s stands i)
  ]
  select-Tracked running takes_error s t stands i h = elim (Option-cases s.err_chan) [
    | inl e ↦ absurd (ground arith)
    | inr (e, q) ↦ subst Tracked (ground arith) (on_error-Tracked e s stands i)
  ]
  select-Tracked running takes_timer s t stands i h = elim (Bool-cases (leb s.deadline s.now)) [
    | inr early ↦ absurd (ground arith)
    | inl late ↦ subst Tracked (ground arith) (on_timer-Tracked s stands late i)
  ]
  select-Tracked _ _ s t stands i h = absurd (ground arith)
