-- ===== src/Config/LoadBalancer/Flagged.antt =====
-- What lb/config.go has before it looks at the flags, and what they make of it.
use gale_lb.Prelude.{
  ◌≡◌, refl, inl, inr, [], arith, true, false, if◌then◌else◌, ok, err, Bool-cases, Result-cases,
}
use gale_lb.Prelude.Text.{Str}
use gale_lb.Config.Load.{Settings, no_path, load_config, get_config_file_path, key_config_file}
use gale_lb.Config.LoadBalancer.{
  Config, new_config, apply_flags_to_config, init_config, key_private_node_port,
  key_private_api_port, key_private_net_iface_private, key_public_clients_port,
  key_public_net_iface_public, key_node_health_checks_before_routing,
  key_node_health_checks_timeout, key_node_health_black_list_after_fails,
  key_node_health_black_list_expiry,
}
use gale_lb.Config.LoadBalancer.Sources.{flag_or}

module _ (viper : Settings Config) where
  -- Every setting of `c` is its flag, or else what `b` says.
  pub record Flagged (b c : Config) : Type 0 where
    pub node_port :
        c.private_interface.node_port
        ≡ flag_or viper key_private_node_port viper.get_int b.private_interface.node_port
    pub api_port :
        c.private_interface.api_port
        ≡ flag_or viper key_private_api_port viper.get_int b.private_interface.api_port
    pub net_iface_private :
        c.private_interface.net_iface_private
        ≡ flag_or viper key_private_net_iface_private viper.get_string
            b.private_interface.net_iface_private
    pub clients_port :
        c.public_interface.clients_port
        ≡ flag_or viper key_public_clients_port viper.get_int b.public_interface.clients_port
    pub net_iface_public :
        c.public_interface.net_iface_public
        ≡ flag_or viper key_public_net_iface_public viper.get_string
            b.public_interface.net_iface_public
    pub checks_before_routing :
        c.node_health.checks_before_routing
        ≡ flag_or viper key_node_health_checks_before_routing viper.get_uint
            b.node_health.checks_before_routing
    pub checks_timeout :
        c.node_health.checks_timeout
        ≡ flag_or viper key_node_health_checks_timeout viper.get_duration
            b.node_health.checks_timeout
    pub black_list_after_fails :
        c.node_health.black_list_after_fails
        ≡ flag_or viper key_node_health_black_list_after_fails viper.get_int
            b.node_health.black_list_after_fails
    pub black_list_expiry :
        c.node_health.black_list_expiry
        ≡ flag_or viper key_node_health_black_list_expiry viper.get_duration
            b.node_health.black_list_expiry

  -- What stands there before the flags.
  abbrev pub base_config : Config
  base_config =
      if viper.changed key_config_file
      then elim (load_config viper (viper.get_string key_config_file) new_config) [
        | err e ↦ new_config
        | ok cfg ↦ cfg
      ]
      else new_config

  pub apply_flags_to_config-Flagged : (c : Config) → Flagged c (apply_flags_to_config viper c)
  unfolding apply_flags_to_config
  apply_flags_to_config-Flagged c = record {
    node_port = ground arith;
    api_port = ground arith;
    net_iface_private = ground arith;
    clients_port = ground arith;
    net_iface_public = ground arith;
    checks_before_routing = ground arith;
    checks_timeout = ground arith;
    black_list_after_fails = ground arith;
    black_list_expiry = ground arith;
  }

  path_given :
      viper.changed key_config_file ≡ true
      → get_config_file_path viper ≡ viper.get_string key_config_file
  unfolding get_config_file_path
  path_given e = rw e

  path_absent : viper.changed key_config_file ≡ false → get_config_file_path viper ≡ []
  unfolding get_config_file_path
  path_absent e = rw e

  no_file : load_config viper [] new_config ≡ err no_path
  unfolding load_config
  no_file = refl

  pub init_config_base : init_config viper ≡ apply_flags_to_config viper base_config
  unfolding init_config
  init_config_base = elim (Bool-cases (viper.changed key_config_file)) [
    | inl given ↦
        rw (given, path_given given, init_config) (from_file (viper.get_string key_config_file))
    | inr absent ↦ rw (absent, path_absent absent, init_config, no_file)
  ]
    where
      from_file :
          (path : Str)
          → (elim (load_config viper path new_config) [
            | err e ↦ apply_flags_to_config viper new_config
            | ok cfg ↦ apply_flags_to_config viper cfg
          ])
            ≡ apply_flags_to_config viper
                (elim (load_config viper path new_config) [ err e ↦ new_config | ok cfg ↦ cfg ])
      from_file path = elim (Result-cases (load_config viper path new_config)) [
        | inl (c, e) ↦ rw e
        | inr (x, e) ↦ rw e
      ]
