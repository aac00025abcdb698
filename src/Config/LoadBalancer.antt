-- ===== src/Config/LoadBalancer.antt =====
-- config/lb/config.go. The logger is left out; durations are nanoseconds.
pub mod Sources
pub mod Flagged
pub mod Precedence
pub mod Flags
use gale_lb.Prelude.{ℕ, ◌*◌, ◌^◌, ◌≡◌, List, [], ◌∷◌, Bool, if◌then◌else◌, Result, ok, err}
use gale_lb.Prelude.Int.{ℤ, pos, negsuc}
use gale_lb.Prelude.Text.{Str, codes}
use gale_lb.Config.Load.{Settings, load_config, get_config_file_path}

abbrev pub key_private_node_port : Str
key_private_node_port = codes "private_interface.node_port"

abbrev pub key_private_api_port : Str
key_private_api_port = codes "private_interface.api_port"

abbrev pub key_private_net_iface_private : Str
key_private_net_iface_private = codes "private_interface.net_interface_private"

abbrev pub key_public_clients_port : Str
key_public_clients_port = codes "public_interface.clients_port"

abbrev pub key_public_net_iface_public : Str
key_public_net_iface_public = codes "public_interface.net_interface_public"

abbrev pub key_node_health_checks_before_routing : Str
key_node_health_checks_before_routing = codes "node_health.checks_before_routing"

abbrev pub key_node_health_checks_timeout : Str
key_node_health_checks_timeout = codes "node_health.checks_timeout"

abbrev pub key_node_health_black_list_after_fails : Str
key_node_health_black_list_after_fails = codes "node_health.black_list_after_fails"

abbrev pub key_node_health_black_list_expiry : Str
key_node_health_black_list_expiry = codes "node_health.black_list_expiry"

pub record PrivateInterface : Type 0 where
  pub node_port : ℤ
  pub api_port : ℤ
  pub net_iface_private : Str

pub record PublicInterface : Type 0 where
  pub clients_port : ℤ
  pub net_iface_public : Str

pub record NodeHealth : Type 0 where
  pub checks_before_routing : ℕ
  pub checks_timeout : ℤ
  pub black_list_after_fails : ℤ
  pub black_list_expiry : ℤ

pub record Config : Type 0 where
  pub private_interface : PrivateInterface
  pub public_interface : PublicInterface
  pub node_health : NodeHealth

-- time.Second
abbrev pub second : ℕ
second = 10 ^ 9

abbrev pub default_private_node_port : ℤ
default_private_node_port = pos 7070

abbrev pub default_private_api_port : ℤ
default_private_api_port = pos 5555

abbrev pub default_private_net_iface_private : Str
default_private_net_iface_private = []

abbrev pub default_public_clients_port : ℤ
default_public_clients_port = pos 8080

abbrev pub default_public_net_iface_public : Str
default_public_net_iface_public = []

abbrev pub default_node_health_checks_before_routing : ℕ
default_node_health_checks_before_routing = 3

abbrev pub default_node_health_checks_timeout : ℤ
default_node_health_checks_timeout = pos (10 * second)

abbrev pub default_node_health_black_list_after_fails : ℤ
default_node_health_black_list_after_fails = negsuc 0

abbrev pub default_node_health_black_list_expiry : ℤ
default_node_health_black_list_expiry = pos (60 * second)

abbrev pub default_config_file : Str
default_config_file = codes "lb.toml"

unfoldable pub new_config : Config
new_config = record {
  private_interface = record {
    node_port = default_private_node_port;
    api_port = default_private_api_port;
    net_iface_private = default_private_net_iface_private;
  };
  public_interface = record {
    clients_port = default_public_clients_port;
    net_iface_public = default_public_net_iface_public;
  };
  node_health = record {
    checks_before_routing = default_node_health_checks_before_routing;
    checks_timeout = default_node_health_checks_timeout;
    black_list_after_fails = default_node_health_black_list_after_fails;
    black_list_expiry = default_node_health_black_list_expiry;
  };
}

module _ (viper : Settings Config) where
  -- The assignments to one part of the configuration; each stands under its own `Changed`.
  unfoldable pub apply_private : PrivateInterface → PrivateInterface
  apply_private c =
      let c1 : PrivateInterface =
        if viper.changed key_private_node_port
        then record c { node_port = viper.get_int key_private_node_port }
        else c in
      let c2 : PrivateInterface =
        if viper.changed key_private_api_port
        then record c1 { api_port = viper.get_int key_private_api_port }
        else c1 in
      if viper.changed key_private_net_iface_private
      then record c2 { net_iface_private = viper.get_string key_private_net_iface_private }
      else c2

  unfoldable pub apply_public : PublicInterface → PublicInterface
  apply_public c =
      let c1 : PublicInterface =
        if viper.changed key_public_clients_port
        then record c { clients_port = viper.get_int key_public_clients_port }
        else c in
      if viper.changed key_public_net_iface_public
      then record c1 { net_iface_public = viper.get_string key_public_net_iface_public }
      else c1

  unfoldable pub apply_health : NodeHealth → NodeHealth
  apply_health c =
      let c1 : NodeHealth =
        if viper.changed key_node_health_checks_before_routing
        then record c {
          checks_before_routing = viper.get_uint key_node_health_checks_before_routing;
        }
        else c in
      let c2 : NodeHealth =
        if viper.changed key_node_health_checks_timeout
        then record c1 { checks_timeout = viper.get_duration key_node_health_checks_timeout }
        else c1 in
      let c3 : NodeHealth =
        if viper.changed key_node_health_black_list_after_fails
        then record c2 {
          black_list_after_fails = viper.get_int key_node_health_black_list_after_fails;
        }
        else c2 in
      if viper.changed key_node_health_black_list_expiry
      then record c3 { black_list_expiry = viper.get_duration key_node_health_black_list_expiry }
      else c3

  unfoldable pub apply_flags_to_config : Config → Config
  unfolding apply_private apply_public apply_health
  apply_flags_to_config cfg = record {
    private_interface = apply_private cfg.private_interface;
    public_interface = apply_public cfg.public_interface;
    node_health = apply_health cfg.node_health;
  }

  unfoldable pub init_config : Config
  init_config = elim (load_config viper (get_config_file_path viper) new_config) [
    | err e ↦ apply_flags_to_config new_config
    | ok cfg ↦ apply_flags_to_config cfg
  ]
