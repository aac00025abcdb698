-- ===== src/Config/LoadBalancer/Flags.antt =====
-- `AddConfigFlags` of config/lb/config.go: which flags there are, with their defaults, and which of them
-- viper is told of. The help texts are left out.
pub mod Defaults
use gale_lb.Prelude.{ℕ, ◌*◌, List, [], ◌∷◌}
use gale_lb.Prelude.Int.{ℤ, pos, negsuc}
use gale_lb.Prelude.Map.{Map}
use gale_lb.Prelude.Text.{Str, codes}
use gale_lb.Config.Load.{key_config_file}
use gale_lb.Config.LoadBalancer.{
  default_private_node_port, default_private_api_port, default_private_net_iface_private,
  default_public_clients_port, default_public_net_iface_public,
  default_node_health_checks_before_routing, default_node_health_checks_timeout,
  default_node_health_black_list_after_fails, default_node_health_black_list_expiry,
  default_config_file, key_private_node_port, key_private_api_port, key_private_net_iface_private,
  key_public_clients_port, key_public_net_iface_public, key_node_health_checks_before_routing,
  key_node_health_checks_timeout, key_node_health_black_list_after_fails,
  key_node_health_black_list_expiry,
}

-- The kinds of flags of package pflag that are used.
pub data Flag : Type 0 where
  int_flag : ℤ → Flag
  string_flag : Str → Flag
  string_array_flag : List Str → Flag
  uint_flag : ℕ → Flag
  duration_flag : ℤ → Flag

unfoldable pub add_config_flags : Map Str Flag
add_config_flags =
    (key_private_node_port, int_flag default_private_node_port)
    ∷ (key_private_api_port, int_flag default_private_api_port)
    ∷ (key_public_clients_port, int_flag default_public_clients_port)
    ∷ (key_private_net_iface_private, string_flag default_private_net_iface_private)
    ∷ (key_public_net_iface_public, string_flag default_public_net_iface_public)
    ∷ (key_node_health_checks_before_routing, uint_flag default_node_health_checks_before_routing)
    ∷ (key_node_health_checks_timeout, duration_flag default_node_health_checks_timeout)
    ∷ (key_node_health_black_list_after_fails, int_flag default_node_health_black_list_after_fails)
    ∷ (key_node_health_black_list_expiry, duration_flag default_node_health_black_list_expiry)
    ∷ (key_config_file, string_flag default_config_file)
    ∷ []

-- The calls of viper.BindPFlag.
unfoldable pub bound_flags : List Str
bound_flags =
    key_private_node_port ∷ key_private_api_port ∷ key_public_clients_port
    ∷ key_private_net_iface_private ∷ key_public_net_iface_public
    ∷ key_node_health_checks_before_routing ∷ key_node_health_checks_timeout
    ∷ key_node_health_black_list_after_fails ∷ key_node_health_black_list_expiry ∷ key_config_file
    ∷ []
