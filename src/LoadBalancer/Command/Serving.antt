-- ===== src/LoadBalancer/Command/Serving.antt =====
-- What holds while the load balancer of cmd/lb serves its nodes.
use gale_lb.Prelude.{◌≡◌, refl, inl, inr, [], arith, ok, Result-cases}
use gale_lb.Prelude.Text.{Str}
use gale_lb.Config.Load.{Settings}
use gale_lb.Config.LoadBalancer.{Config, init_config}
use gale_lb.Registry.{new_registry}
use gale_lb.Util.Addresses.{Interfaces}
use gale_lb.Node.Client.{Grpc, remote_server}
use gale_lb.NodeManager.Server.{Sockets, Started, exits, serving, comes_back, start}
use gale_lb.NodeManager.Server
use gale_lb.NodeManager.Server.Address.{IsAddressOf, start-remote_server}
use gale_lb.LoadBalancer.Api
use gale_lb.LoadBalancer.Command.{
  Execution, fails, helps, runs, execute, serves_at, run_servers, main,
}

run_servers-serving :
    (net : Interfaces) (sockets : Sockets) (cfg : Config) (address : Str)
    → (run_servers net sockets cfg).1 ≡ serves_at address
    → ((run_servers net sockets cfg).0 ≡ [])
      × (start net sockets (Server.new cfg new_registry) ≡ serving address)
unfolding run_servers
run_servers-serving net sockets cfg address e = elim (Result-cases (Api.new net cfg new_registry)) [
  | inr (failure, wrong) ↦ absurd (ground arith)
  | inl (api, right) ↦ by_start (start net sockets (Server.new cfg new_registry)) refl api right
]
  where
    by_start :
        (st : Started)
        → start net sockets (Server.new cfg new_registry) ≡ st
        → (api : Api.LoadBalancerApi) → Api.new net cfg new_registry ≡ ok api
        → ((run_servers net sockets cfg).0 ≡ [])
          × (start net sockets (Server.new cfg new_registry) ≡ serving address)
    by_start (exits failure) s api a = absurd (ground arith)
    by_start (serving at) s api a = (ground arith, ground arith)
    by_start (comes_back at) s api a = absurd (ground arith)

-- While the load balancer serves its nodes, its command ran with some settings and its HTTP API has not
-- been launched; a node that is given the first IPv4 address of the configured private interface, and the
-- configured port, connects to the address at which the load balancer serves.
pub main-remote_server :
    (net : Interfaces) (sockets : Sockets) (grpc : Grpc) (execution : Execution) (address : Str)
    → (main net sockets execution).1 ≡ serves_at address
    → ((main net sockets execution).0 ≡ [])
      × ((settings : Settings Config) × (execution ≡ runs settings)
          × ((ip : Str) × IsAddressOf net
                (init_config settings).private_interface.net_iface_private
                ip
              × (remote_server grpc ip (init_config settings).private_interface.node_port
                  ≡ address)))
unfolding main execute
main-remote_server net sockets grpc fails address e = absurd (cc)
main-remote_server net sockets grpc helps address e = absurd (cc)
main-remote_server net sockets grpc (runs settings) address e =
    let (quiet, served) = run_servers-serving net sockets (init_config settings) address e in
    (
      quiet,
      (
        settings,
        refl,
        unfold Server.new in
            start-remote_server net sockets grpc (Server.new (init_config settings) new_registry)
              address served,
      ),
    )
