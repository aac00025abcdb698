-- ===== src/Health/Tests.antt =====
-- The theorem on a node and a load balancer, over concrete stand-ins for gRPC.
use gale_lb.Prelude.{ℕ, ◌+◌, ◌%◌, ◌≡◌, refl, [], ◌∷◌, none, some, length, arith}
use gale_lb.Prelude.Int.{pos, negsuc}
use gale_lb.Prelude.Equality.{bytes_eq, bytes_beq}
use gale_lb.Prelude.Map.{lookup}
use gale_lb.Prelude.Text.{Str, codes}
use gale_lb.Consensus.{Rpc, RpcLaws}
use gale_lb.Config.LoadBalancer.{NodeHealth}
use gale_lb.Registry.{Node, uint_mod, new_node}
use gale_lb.NodeManager
use gale_lb.NodeManager.Stream.{System, start, run}
use gale_lb.NodeManager.Stream.Alive.{Awaits, IsPunctual, rounds}
use gale_lb.Node.Targets.{Target}
use gale_lb.Node.Dispatcher.{configured, health_period}
use gale_lb.Node.Client.{Grpc, launch_of, health_status}
use gale_lb.Health.{is_awake, is_alive, gaps, Trip, reports_keep_alive}

abbrev health : NodeHealth
health = record {
  checks_before_routing = 3;
  checks_timeout = pos 11;
  black_list_after_fails = negsuc 0;
  black_list_expiry = pos 60;
}

abbrev answering : Grpc
answering = record {
  Conn = Str;
  Stream = Str;
  GrpcError = ℕ;
  new_client = λ server. some server;
  open_stream = λ conn. some conn;
  call_get_config = λ conn. (some (NodeManager.get_config health), none);
  send = λ stream status. none;
}

abbrev target : Target
target = record { ip = codes "10.0.0.1"; port = pos 7070 }

-- An error is its code.
abbrev toy_rpc : Rpc
toy_rpc = record {
  RpcError = ℕ;
  get_status = λ m. elim m [ none ↦ 0 | some h ↦ h.status ];
  code = λ e. elim e [ none ↦ 0 | some c ↦ c ];
  canceled = 1;
  unavailable = 14;
}

toy_laws : RpcLaws toy_rpc
toy_laws = record {
  get_status_nil = refl;
  get_status_some = λ m. refl;
  canceled_not_nil = omega arith;
  unavailable_not_nil = omega arith;
}

abbrev node : Str
node = codes "10.0.0.7:4242"

abbrev opened : System ℕ
opened = start toy_rpc node 11 (record { registry = (node, new_node) ∷ []; black_list = [] }) 100

opened-Awaits : Awaits toy_rpc toy_laws node 11 health_status is_awake is_alive new_node opened
unfolding lookup bytes_beq
opened-Awaits = record { at_receive = refl; runs = refl; free = refl; fresh = refl; held = refl }

half : health_period (pos 11) ≡ pos 5
unfolding health_period
half = refl

-- One report in time, and one almost a period late.
reports_keep_alive_example :
    (launch_of answering target ≡ configured (pos 11))
    × IsPunctual toy_rpc toy_laws node 11 health_status is_awake is_alive
        (gaps 5 1 ((0, 4) ∷ (2, 1) ∷ []))
        opened
    × ((t : System ℕ) × (w : Node) × (run toy_rpc node 11
            (rounds toy_rpc toy_laws node 11 health_status is_awake is_alive
              (gaps 5 1 ((0, 4) ∷ (2, 1) ∷ [])))
            opened
          ≡ some t)
        × Awaits toy_rpc toy_laws node 11 health_status is_awake is_alive w t
        × (w.continuous_health_checks
            ≡ (new_node.continuous_health_checks + length {A = Trip} ((0, 4) ∷ (2, 1) ∷ []))
              % uint_mod))
reports_keep_alive_example =
    reports_keep_alive answering target health 11 _ _ refl refl refl refl toy_rpc toy_laws node 5 1
      ((0, 4) ∷ (2, 1) ∷ []) new_node opened half (omega arith) (omega arith) (omega arith)
      opened-Awaits
