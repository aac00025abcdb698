-- ===== src/NodeManager/Process/Tests.antt =====
-- The process of node_manager.go at concrete inputs: two nodes connect, and one of them falls silent.
use gale_lb.Prelude.{ℕ, ◌+◌, ◌≤◌, ◌≡◌, refl, inl, inr, [], ◌∷◌, none, some, false, arith, IsUnique}
use gale_lb.Prelude.Equality.{nat_eq, bytes_eq, bytes_beq, bytes_beq_iff}
use gale_lb.Prelude.Map.{lookup, insert}
use gale_lb.Prelude.Text.{Str, codes}
use gale_lb.Consensus.{Rpc}
use gale_lb.Registry.{
  Node, NodeRegistry, new_node, new_registry, register_node, report_node_failure,
}
use gale_lb.NodeManager.{Network, tcp, report_health_status}
use gale_lb.NodeManager.Stream.{
  running, returned, timed_out, receiving, takes_timer, receives, sends, step,
}
use gale_lb.NodeManager.Process.{
  Stream, Process, has_crashed, Move, connects, passes, acts, act_of, move, run, key_brought, Reach,
  begin, next,
}
use gale_lb.NodeManager.Process.Refinement.{process_timed_out_late}
use gale_lb.NodeManager.Process.Outage.{silent_node_ends_all}
use gale_lb.NodeManager.Process.Silence.{silence_noticed}

-- An error is its code: 1 is Canceled, 14 is Unavailable.
abbrev pair_rpc : Rpc
pair_rpc = record {
  RpcError = ℕ;
  get_status = λ m. elim m [ none ↦ 0 | some h ↦ h.status ];
  code = λ e. elim e [ none ↦ 0 | some c ↦ c ];
  canceled = 1;
  unavailable = 14;
}

abbrev pair_lan : Network
pair_lan = record {
  TcpAddr = Str;
  ip_string = λ addr. codes "10.0.0.7";
  addr_string = λ addr. addr;
  mac_from_arp_cache = λ ip iface. none;
  mac_via_arp_call = λ ip iface. some (codes "02:00:00:00:00:07");
}

abbrev one_key : Str
one_key = codes "a:1"

abbrev two_key : Str
two_key = codes "b:2"

abbrev eth : Str
eth = codes "eth0"

abbrev comes : Str → Move Str ℕ
comes k = connects (some (tcp (some k)))

abbrev stream_of : Str → Stream ℕ
stream_of k = record {
  node_key = k;
  msg_chan = none;
  err_chan = none;
  listener = receiving;
  handler = running;
  deadline = 110;
}

abbrev both : NodeRegistry
both = record { registry = (one_key, new_node) ∷ (two_key, new_node) ∷ []; black_list = [] }

abbrev joined : Process ℕ
joined = record {
  registry = both;
  now = 100;
  streams = (0, stream_of one_key) ∷ (1, stream_of two_key) ∷ [];
  next_id = 2;
}

joined_reached : Reach pair_lan pair_rpc eth 10 100 (two_key ∷ one_key ∷ []) joined
unfolding move key_brought has_crashed report_health_status register_node lookup insert bytes_beq
    new_registry
joined_reached = next (comes two_key) (next (comes one_key) begin refl) refl

not_same : ¬ (two_key ≡ one_key)
unfolding bytes_beq
not_same e = absurd (ground (arith, (bytes_beq_iff two_key one_key).1 e))

keys_differ : IsUnique (two_key ∷ one_key ∷ [])
keys_differ = (λ o. elim o [ inl e ↦ not_same e | inr n ↦ n ], (λ o. o, tt))

-- Ten nanoseconds later the stream of the first node times out; that of the second goes on.
abbrev half : Process ℕ
half = record joined {
  registry = report_node_failure both one_key;
  now = 110;
  streams =
      (0, record (stream_of one_key) { handler = returned timed_out })
      ∷ (1, stream_of two_key)
      ∷ [];
}

half_reached : Reach pair_lan pair_rpc eth 10 100 (two_key ∷ one_key ∷ []) half
unfolding move key_brought has_crashed act_of step lookup insert bytes_beq new_registry
half_reached = next (acts 0 takes_timer) (next (passes 10) joined_reached refl) refl

found_two : lookup 1 half.streams ≡ some (stream_of two_key)
unfolding lookup
found_two = refl

found_one :
    lookup 0 half.streams ≡ some (record (stream_of one_key) { handler = returned timed_out })
unfolding lookup
found_one = refl

process_timed_out_late_example :
    (w : Node) × (lookup one_key half.registry.registry ≡ some w)
    × (w.continuous_health_checks ≡ 0)
    × (w.last_health_check + 10 ≤ half.now)
process_timed_out_late_example =
    process_timed_out_late pair_lan pair_rpc eth 10 100 half_reached keys_differ 0
      (record (stream_of one_key) { handler = returned timed_out }) found_one refl

both_live : has_crashed joined.streams ≡ false
unfolding has_crashed
both_live = refl

waits_two : lookup 1 joined.streams ≡ some (stream_of two_key)
unfolding lookup
waits_two = refl

-- The second node falls silent, and the first one's stream ends with it.
silent_node_ends_all_example :
    (q : Process ℕ) × (run pair_lan pair_rpc eth 10
        (passes 10 ∷ acts 1 takes_timer ∷ acts 1 (receives none (some 14)) ∷ acts 1 sends ∷ [])
        joined
      ≡ some q)
    × ((m : Move Str ℕ) → move pair_lan pair_rpc eth 10 m q ≡ none)
silent_node_ends_all_example =
    silent_node_ends_all pair_lan pair_rpc eth 10 joined 1 10 (stream_of two_key) 14 both_live
      waits_two refl refl (omega arith)

silence_noticed_example :
    (q : Process ℕ) × (run pair_lan pair_rpc eth 10 (passes 10 ∷ acts 1 takes_timer ∷ []) joined
      ≡ some q)
    × (lookup 1 q.streams ≡ some (record (stream_of two_key) { handler = returned timed_out }))
    × (w : Node) × (lookup two_key q.registry.registry ≡ some w)
    × (w.continuous_health_checks ≡ 0)
silence_noticed_example =
    silence_noticed pair_lan pair_rpc eth 10 100 joined_reached keys_differ both_live 1
      (stream_of two_key) waits_two refl
