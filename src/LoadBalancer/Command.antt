-- ===== src/LoadBalancer/Command.antt =====
-- cmd/lb: `main`, with the command that it executes. Package cobra is a parameter: what executing the
-- command comes to.
pub mod Serving
use gale_lb.Prelude.{List, [], ◌∷◌, Option, none, some, Result, ok, err}
use gale_lb.Prelude.Text.{Str}
use gale_lb.Config.Load.{Settings}
use gale_lb.Config.LoadBalancer.{Config, init_config}
use gale_lb.Registry.{new_registry}
use gale_lb.Util.Addresses.{Interfaces}
use gale_lb.NodeManager.Server.{Sockets, Started, exits, serving, comes_back, start}
use gale_lb.NodeManager.Server
use gale_lb.LoadBalancer.Api

-- The command fails, it only prints its help (`--help`), or it runs with its settings.
pub data Execution : Type 0 where
  fails helps : Execution
  runs : Settings Config → Execution

-- What `Execute` leaves in `cfg`: the process ends, or there is a configuration, or there is none.
pub data Executed : Type 0 where
  ended : Executed
  configuration : Option Config → Executed

unfoldable pub execute : Execution → Executed
unfolding init_config
execute fails = ended
execute helps = configuration none
execute (runs settings) = configuration (some (init_config settings))

-- What `main` does to the HTTP API.
pub data Event : Type 0 where
  api_launched api_stopped : Event

-- How far `main` comes: log.Fatalf ends it, the nil configuration makes it panic, the gRPC server goes on
-- serving at an address, or it returns.
pub data End : Type 0 where
  fatal nil_pointer returned : End
  serves_at : Str → End

module _ (net : Interfaces) (sockets : Sockets) where
  unfoldable pub run_servers : Config → List Event × End
  unfolding Api.new Server.new start
  run_servers cfg = elim (Api.new net cfg new_registry) [
    | err e ↦ ([], fatal)
    | ok api ↦ elim (start net sockets (Server.new cfg new_registry)) [
      | exits failure ↦ ([], fatal)
      | serving address ↦ ([], serves_at address)
      | comes_back address ↦ (api_launched ∷ api_stopped ∷ [], returned)
    ]
  ]

  unfoldable pub main : Execution → List Event × End
  unfolding execute run_servers
  main execution = elim (execute execution) [
    | ended ↦ ([], fatal)
    | configuration none ↦ ([], nil_pointer)
    | configuration (some cfg) ↦ run_servers cfg
  ]
