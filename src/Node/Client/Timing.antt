-- ===== src/Node/Client/Timing.antt =====
-- How often a node reports to a load balancer, measured by that load balancer's timeout.
use gale_lb.Prelude.{ℕ, ◌+◌, ◌*◌, ◌/◌, ◌≤◌, ◌<◌, ◌≡◌, refl, some, arith}
use gale_lb.Prelude.Int.{pos}
use gale_lb.Config.LoadBalancer.{NodeHealth}
use gale_lb.NodeManager
use gale_lb.Node.Targets.{Target}
use gale_lb.Node.Dispatcher.{configured, health_period}
use gale_lb.Node.Client.{Grpc, remote_server, launch_of}

-- If a load balancer can be reached and answers with its own configuration, whose timeout is not
-- negative, the node takes over that timeout, and its period is half of it, rounded down: two periods
-- fit into the timeout, and leave less than 2 ns of it.
pub launch_of_period :
    (grpc : Grpc) (target : Target) (health : NodeHealth) (n : ℕ) (conn : grpc.Conn)
    (stream : grpc.Stream)
    → grpc.new_client (remote_server grpc target.ip target.port) ≡ some conn
    → grpc.open_stream conn ≡ some stream
    → (grpc.call_get_config conn).0 ≡ some (NodeManager.get_config health)
    → health.checks_timeout ≡ pos n
    → (launch_of grpc target ≡ configured health.checks_timeout)
      × ((p : ℕ) × (health_period health.checks_timeout ≡ pos p) × (2 * p ≤ n) × (n < 2 * p + 2))
unfolding launch_of health_period NodeManager.get_config
launch_of_period grpc target health n conn stream reached opened answered timeout =
    (ground (arith, reached, opened, answered), (n / 2, rw timeout refl, omega arith, omega arith))
