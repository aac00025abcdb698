-- ===== src/LoadBalancer/Api.antt =====
-- pkg/lbnetwork/api/v1: the HTTP API of the load balancer. Packages net/http and gin serve the routes that
-- are listed here.
use gale_lb.Prelude.{ℕ, ◌*◌, ◌^◌, List, [], ◌∷◌, ◌++◌, Option, none, some, Result, ok, err}
use gale_lb.Prelude.Decimal.{print_int}
use gale_lb.Prelude.Text.{Str, codes}
use gale_lb.Config.LoadBalancer.{Config, second}
use gale_lb.Http.{HttpServer, Method, get, HttpError, server_closed, other, status_ok}
use gale_lb.Registry.{NodeRegistry}
use gale_lb.Util.Addresses.{AddressError, Interfaces, get_ipv4_from_interface}

abbrev pub server_read_timeout : ℕ
server_read_timeout = 5 * second

abbrev pub server_write_timeout : ℕ
server_write_timeout = 5 * second

abbrev pub server_idle_timeout : ℕ
server_idle_timeout = 10 * second

abbrev pub server_shutdown_timeout : ℕ
server_shutdown_timeout = 5 * second

abbrev pub max_header_size : ℕ
max_header_size = 2 ^ 20

pub data Endpoint : Type 0 where
  get_nodes_status get_node : Endpoint

unfoldable pub setup_router : List (Method × Str × Endpoint)
setup_router = (get, codes "/nodes", get_nodes_status) ∷ (get, codes "/nodes/:id", get_node) ∷ []

-- The status of the answer; the body is empty, and the registry is not read.
unfoldable pub handle : Endpoint → NodeRegistry → ℕ
handle get_nodes_status registry = status_ok
handle get_node registry = status_ok

pub record LoadBalancerApi : Type 0 where
  pub server : HttpServer
  pub routes : List (Method × Str × Endpoint)
  pub registry : NodeRegistry

module _ (net : Interfaces) where
  -- An error ends the process.
  unfoldable pub new : Config → NodeRegistry → Result AddressError LoadBalancerApi
  unfolding get_ipv4_from_interface setup_router print_int
  new cfg registry = elim (get_ipv4_from_interface net cfg.private_interface.net_iface_private) [
    | err e ↦ err e
    | ok ip ↦ ok (record {
      server = record {
        addr = ip ++ (b':' ∷ print_int cfg.private_interface.api_port);
        read_timeout = server_read_timeout;
        write_timeout = server_write_timeout;
        idle_timeout = server_idle_timeout;
        max_header_bytes = max_header_size;
      };
      routes = setup_router;
      registry = registry;
    })
  ]

-- What `Start` makes of the result of `ListenAndServe`.
unfoldable pub start : Option HttpError → Option HttpError
start (some server_closed) = none
start (some other) = some other
start none = none

-- `Shutdown` of package net/http is a parameter: what it returns when its context leaves it so long.
unfoldable pub stop : (ℕ → Option HttpError) → Option HttpError
stop shutdown = shutdown server_shutdown_timeout
