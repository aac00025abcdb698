-- ===== src/LoadBalancer/Tests.antt =====
-- The theorem on cmd/lb over a machine with one interface.
use gale_lb.Prelude.{◌≡◌, refl, [], ◌∷◌, none, some, Bool}
use gale_lb.Prelude.Int.{pos}
use gale_lb.Prelude.Equality.{bytes_beq}
use gale_lb.Prelude.Text.{Str, codes}
use gale_lb.Config.Load.{Settings, load_config, get_config_file_path}
use gale_lb.Config.LoadBalancer.{Config, init_config, apply_flags_to_config, key_private_node_port}
use gale_lb.Util.Ip.{ipv4}
use gale_lb.Util.Addresses.{ip_net, Interfaces, first_ipv4, get_ipv4_from_interface}
use gale_lb.Node.Client.{Grpc, remote_server}
use gale_lb.NodeManager.Server.{Sockets, goes_on, start}
use gale_lb.NodeManager.Server.Address.{IsAddressOf}
use gale_lb.LoadBalancer.Command.{runs, serves_at, run_servers, main}
use gale_lb.LoadBalancer.Command.Serving.{main-remote_server}

-- `--private_interface.node_port 9000`, and no configuration file.
abbrev given : Settings Config
given = record {
  changed = λ key. bytes_beq key key_private_node_port;
  readable = λ path. Bool.false;
  unmarshal = λ told cfg. none;
  get_string = λ key. [];
  get_int = λ key. pos 9000;
  get_uint = λ key. 0;
  get_duration = λ key. pos 0;
  get_string_slice = λ key. [];
}

abbrev machine : Interfaces
machine = record {
  Interface = Unit {0};
  parse_ip = λ s. none;
  interface_by_name = λ name. some tt;
  addrs = λ iface. some (ip_net (ipv4 10 0 0 1) ∷ []);
}

abbrev sockets : Sockets
sockets = record {
  Listener = Unit {0};
  listen = λ protocol address. some tt;
  serve = λ listener. goes_on;
}

abbrev silent : Grpc
silent = record {
  Conn = Unit {0};
  Stream = Unit {0};
  GrpcError = Unit {0};
  new_client = λ server. some tt;
  open_stream = λ conn. none;
  call_get_config = λ conn. (none, none);
  send = λ stream status. none;
}

served : (main machine sockets (runs given)).1 ≡ serves_at (codes "10.0.0.1:9000")
unfolding main run_servers init_config apply_flags_to_config bytes_beq get_ipv4_from_interface
    first_ipv4 start load_config get_config_file_path
served = refl

main-remote_server_example :
    ((main machine sockets (runs given)).0 ≡ [])
    × ((settings : Settings Config) × (runs given ≡ runs settings)
        × ((ip : Str) × IsAddressOf machine
              (init_config settings).private_interface.net_iface_private
              ip
            × (remote_server silent ip (init_config settings).private_interface.node_port
                ≡ codes "10.0.0.1:9000")))
main-remote_server_example =
    main-remote_server machine sockets silent (runs given) (codes "10.0.0.1:9000") served
