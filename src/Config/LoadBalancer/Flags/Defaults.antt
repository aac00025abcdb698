-- ===== src/Config/LoadBalancer/Flags/Defaults.antt =====
-- The defaults of the flags of lb/config.go, against those of `New`.
use gale_lb.Prelude.{ℕ, ◌≡◌, refl, some, arith}
use gale_lb.Prelude.Int.{ℤ}
use gale_lb.Prelude.Equality.{bytes_eq, bytes_beq}
use gale_lb.Prelude.Map.{lookup, keys}
use gale_lb.Prelude.Text.{Str}
use gale_lb.Config.Load.{Settings}
use gale_lb.Config.LoadBalancer.{
  Config, new_config, apply_flags_to_config, key_private_node_port, key_private_api_port,
  key_private_net_iface_private, key_public_clients_port, key_public_net_iface_public,
  key_node_health_checks_before_routing, key_node_health_checks_timeout,
  key_node_health_black_list_after_fails, key_node_health_black_list_expiry,
}
use gale_lb.Config.LoadBalancer.Flags.{
  int_flag, string_flag, uint_flag, duration_flag, add_config_flags, bound_flags,
}

-- Viper answers, for each flag, with the default that it was registered with.
pub record AtDefaults (viper : Settings Config) : Type 0 where
  pub ints : (k : Str) (n : ℤ) → lookup k add_config_flags ≡ some (int_flag n) → viper.get_int k ≡ n
  pub strings :
      (k s : Str) → lookup k add_config_flags ≡ some (string_flag s) → viper.get_string k ≡ s
  pub uints :
      (k : Str) (n : ℕ) → lookup k add_config_flags ≡ some (uint_flag n) → viper.get_uint k ≡ n
  pub durations :
      (k : Str) (n : ℤ)
      → lookup k add_config_flags ≡ some (duration_flag n)
      → viper.get_duration k ≡ n

-- Whichever flags are given, as long as each is given with its default, the configuration is that of
-- `New`: the two lists of defaults agree in all nine settings.
pub apply_flags_to_config-new_config :
    (viper : Settings Config)
    → AtDefaults viper
    → apply_flags_to_config viper new_config ≡ new_config
unfolding apply_flags_to_config new_config add_config_flags lookup bytes_beq
apply_flags_to_config-new_config viper d = ground (
  arith,
  d.ints key_private_node_port _ refl,
  d.ints key_private_api_port _ refl,
  d.strings key_private_net_iface_private _ refl,
  d.ints key_public_clients_port _ refl,
  d.strings key_public_net_iface_public _ refl,
  d.uints key_node_health_checks_before_routing _ refl,
  d.durations key_node_health_checks_timeout _ refl,
  d.ints key_node_health_black_list_after_fails _ refl,
  d.durations key_node_health_black_list_expiry _ refl,
)

all_bound : bound_flags ≡ keys add_config_flags
unfolding bound_flags add_config_flags keys
all_bound = refl
