-- ===== src/Health.antt =====
-- A node and a load balancer together: the dispatcher's client of pkg/nodenetwork, and the node manager
-- that answers it.
mod Tests
use gale_lb.Prelude.{
  ℕ, ◌+◌, ◌-◌, ◌*◌, ◌%◌, ◌≤◌, ◌<◌, ◌≡◌, ◌≢◌, refl, sym, ap, ◌∙◌, List, [], ◌∷◌, map, Option, none,
  some, All, arith, length,
}
use gale_lb.Prelude.Int.{ℤ, pos}
use gale_lb.Prelude.Text.{Str}
use gale_lb.Consensus.{Rpc, RpcLaws, not_serving, shutting_down}
use gale_lb.Config.LoadBalancer.{NodeHealth}
use gale_lb.Registry.{Node, uint_mod}
use gale_lb.NodeManager
use gale_lb.NodeManager.Stream.{System, run}
use gale_lb.NodeManager.Stream.Alive.{Awaits, IsPunctual, rounds, keep_alive}
use gale_lb.Node.Targets.{Target}
use gale_lb.Node.Dispatcher.{configured, health_period}
use gale_lb.Node.Client.{Grpc, remote_server, launch_of, health_status}
use gale_lb.Node.Client.Timing.{launch_of_period}

pub is_awake : health_status.status ≢ not_serving
is_awake = omega arith

pub is_alive : health_status.status ≢ shutting_down
is_alive = omega arith

-- A report: how much more than a period lies between it and the one before as the node sends them, and how
-- long it travels.
abbrev pub Trip : Type 0
Trip = ℕ × ℕ

-- From one arrival to the next; `before` is how long the report before travelled. A report that travels
-- faster than the one before closes up to it.
abbrev pub gaps : ℕ → ℕ → List Trip → List ℕ
gaps period before [] = []
gaps period before ((late, travel) ∷ trips) =
    (period + late + travel - before) ∷ gaps period travel trips

gaps-All :
    (period timeout before : ℕ) (trips : List Trip)
    → 2 * period ≤ timeout
    → All (λ trip. trip.0 + trip.1 < period) trips
    → All (λ gap. gap < timeout) (gaps period before trips)
gaps-All period timeout before [] fits h = tt
gaps-All period timeout before ((late, travel) ∷ trips) fits (early, h) =
    (omega arith, gaps-All period timeout travel trips fits h)

length-gaps :
    (period before : ℕ) (trips : List Trip) → length (gaps period before trips) ≡ length trips
length-gaps period before [] = refl
length-gaps period before ((late, travel) ∷ trips) = ap ℕ.suc (length-gaps period travel trips)

pos_injective : (m n : ℕ) → pos m ≡ pos n → m ≡ n
pos_injective m n e = cc

module _ (grpc : Grpc) (target : Target) (health : NodeHealth) (timeout : ℕ) (conn : grpc.Conn)
    (stream : grpc.Stream)
    (reached : grpc.new_client (remote_server grpc target.ip target.port) ≡ some conn)
    (opened : grpc.open_stream conn ≡ some stream)
    (answered : (grpc.call_get_config conn).0 ≡ some (NodeManager.get_config health))
    (in_force : health.checks_timeout ≡ pos timeout) where
  -- If a node has asked a load balancer for its configuration, and the load balancer serves the stream of
  -- the node with the timeout that it answered with, then the node takes over that timeout. Let it send its
  -- reports with the period that it makes of it, each by some delay more than a period behind the one before,
  -- and let them arrive in order, each after some time on the way, with delay and time together less than a
  -- period, and each find the stream at rest and be received and handled as it arrives, with nothing else done in the
  -- stream. Then the timer never fires before a report arrives, each one is counted, modulo 2 ^ 64, and the
  -- stream waits for the next with the whole timeout ahead. The first report follows one whose time on the
  -- way was less than a period too, and which the stream has handled.
  pub reports_keep_alive :
      (rpc : Rpc) (laws : RpcLaws rpc) (node_key : Str) (period before : ℕ) (trips : List Trip)
      (v : Node) (s : System rpc.RpcError)
      → health_period (pos timeout) ≡ pos period
      → before < period
      → All (λ trip. trip.0 + trip.1 < period) trips
      → v.continuous_health_checks < uint_mod
      → Awaits rpc laws node_key timeout health_status is_awake is_alive v s
      → (launch_of grpc target ≡ configured (pos timeout))
        × IsPunctual rpc laws node_key timeout health_status is_awake is_alive
            (gaps period before trips)
            s
        × ((t : System rpc.RpcError) × (w : Node) × (run rpc node_key timeout
                (rounds rpc laws node_key timeout health_status is_awake is_alive
                  (gaps period before trips))
                s
              ≡ some t)
            × Awaits rpc laws node_key timeout health_status is_awake is_alive w t
            × (w.continuous_health_checks ≡ (v.continuous_health_checks + length trips) % uint_mod))
  reports_keep_alive rpc laws node_key period before trips v s half ordered timely small w =
      let (launched, (p, half', fits, close)) =
        launch_of_period grpc target health timeout conn stream reached opened answered in_force in
      let same : pos p ≡ pos period = sym half' ∙ ap health_period in_force ∙ half in
      let twice : 2 * period ≤ timeout = omega (arith, fits, pos_injective p period same) in
      let (punctual, (t, u, ran, waits, count)) =
        keep_alive rpc laws node_key timeout health_status is_awake is_alive
          (gaps period before trips) v s (gaps-All period timeout before trips twice timely) small
          w in
      (
        launched ∙ ap configured in_force,
        punctual,
        (
          t,
          u,
          ran,
          waits,
          count
              ∙ ap (λ n. (v.continuous_health_checks + n) % uint_mod)
                  (length-gaps period before trips),
        ),
      )
