-- ===== src/NodeManager/Tests.antt =====
-- The health streams of node_manager.go at concrete inputs, over a concrete stand-in for gRPC.
use gale_lb.Prelude.{ℕ, ◌%◌, ◌≡◌, ◌⊎◌, ◌+◌, refl, [], ◌∷◌, none, some, arith}
use gale_lb.Prelude.Equality.{bytes_eq, bytes_beq}
use gale_lb.Prelude.Map.{lookup}
use gale_lb.Prelude.Text.{Str, codes}
use gale_lb.Consensus.{Rpc, HealthStatus}
use gale_lb.NodeManager.Stream.Counted.{in_hand, in_chan, arrived}
use gale_lb.NodeManager.Stream.Counted.Runs.{run_counts}
use gale_lb.Registry.{
  uint_mod, Node, NodeRegistry, new_node, report_new_health_check, report_node_failure,
}
use gale_lb.NodeManager.{grpc_err_unrecoverable}
use gale_lb.NodeManager.Stream.{
  shut_down, unrecoverable, timed_out, returned, panicked, System, receives, sends, takes_message,
  sending_message, takes_error, takes_timer, waits, start, run, step, Reach, begin, next, done,
}
use gale_lb.NodeManager.Stream.Effects.{unrecoverable_stops}
use gale_lb.NodeManager.Stream.Crash.{crash_only_after_return}

-- An error is its code: 1 is Canceled, 14 is Unavailable, 2 is Unknown.
abbrev toy_rpc : Rpc
toy_rpc = record {
  RpcError = ℕ;
  get_status = λ m. elim m [ none ↦ 0 | some h ↦ h.status ];
  code = λ e. elim e [ none ↦ 0 | some c ↦ c ];
  canceled = 1;
  unavailable = 14;
}

abbrev node : Str
node = codes "10.0.0.7:4242"

abbrev fresh : NodeRegistry
fresh = record { registry = (node, new_node) ∷ []; black_list = [] }

abbrev opened : System ℕ
opened = start toy_rpc node 10 fresh 100

fresh_entry : lookup node fresh.registry ≡ some new_node
unfolding lookup bytes_beq
fresh_entry = refl

abbrev silent : System ℕ
silent = record opened {
  registry = report_node_failure fresh node;
  handler = returned timed_out;
  now = 110;
}

silent_reached : Reach toy_rpc node 10 fresh 100 silent
unfolding step
silent_reached = next takes_timer tt (next (waits 10) tt begin refl) refl

abbrev canceled : System ℕ
canceled = record opened {
  registry = report_node_failure fresh node;
  listener = done;
  handler = returned (unrecoverable (some 1));
}

canceled_reached : Reach toy_rpc node 10 fresh 100 canceled
unfolding step
canceled_reached =
    next takes_error tt (next sends tt (next (receives none (some 1)) tt begin refl) refl) refl

unrecoverable_stops_example :
    (w : Node) × (lookup node canceled.registry.registry ≡ some w)
    × (w.continuous_health_checks ≡ 0)
    × (canceled.listener ≡ done)
unrecoverable_stops_example =
    unrecoverable_stops toy_rpc node 10 fresh 100 new_node fresh_entry (omega arith) (some 1)
      canceled_reached refl

abbrev crashed : System ℕ
crashed = record silent { listener = panicked }

crashed_reached : Reach toy_rpc node 10 fresh 100 crashed
unfolding step
crashed_reached = next sends tt (next (receives none (some 1)) tt silent_reached refl) refl

crash_only_after_return_example :
    (crashed.handler ≡ returned shut_down) ⊎ (crashed.handler ≡ returned timed_out)
crash_only_after_return_example = crash_only_after_return toy_rpc node 10 crashed_reached refl

abbrev up : HealthStatus
up = record { service = codes "gale-node"; status = 0; message = [] }

-- One report is counted, another one is in the hands of the listener.
abbrev reported : System ℕ
reported = record opened {
  registry = report_new_health_check fresh node 100;
  deadline = 110;
  listener = sending_message (some up);
}

two_reports :
    run toy_rpc node 10
      (receives (some up) none ∷ sends ∷ takes_message ∷ receives (some up) none ∷ [])
      opened
    ≡ some reported
unfolding run step grpc_err_unrecoverable
two_reports = refl

run_counts_example :
    (w : Node) × (counted : ℕ) × (lookup node reported.registry.registry ≡ some w)
    × (w.continuous_health_checks % uint_mod ≡ (0 + counted) % uint_mod)
    × ((counted + in_hand toy_rpc reported.listener) + in_chan toy_rpc reported.msg_chan
        ≡ arrived toy_rpc
            (receives (some up) none ∷ sends ∷ takes_message ∷ receives (some up) none ∷ []))
run_counts_example =
    run_counts toy_rpc node 10 fresh 100 new_node
      (receives (some up) none ∷ sends ∷ takes_message ∷ receives (some up) none ∷ []) fresh_entry
      (tt, (tt, (tt, (tt, tt)))) two_reports refl
