-- ===== src/Config/LoadBalancer/Sources.antt =====
-- In what order package viper, and config/lb/config.go over it, are to look a setting up.
use gale_lb.Prelude.{ℕ, Bool, Option, none, some, Result, ◌≡◌, true, false, if◌then◌else◌, ok, err}
use gale_lb.Prelude.Text.{Str}
use gale_lb.Prelude.Int.{ℤ}
use gale_lb.Config.Load.{Settings, Merge, load_config, key_config_file}
use gale_lb.Config.LoadBalancer.{
  Config, new_config, key_private_node_port, key_private_api_port, key_private_net_iface_private,
  key_public_clients_port, key_public_net_iface_public, key_node_health_checks_before_routing,
  key_node_health_checks_timeout, key_node_health_black_list_after_fails,
  key_node_health_black_list_expiry,
}

-- The environment, and the files, as viper reads them under a key; `none` is a key that is not there.
pub record Sources : Type 0 where
  pub env_string : Str → Option Str
  pub env_int : Str → Option ℤ
  pub env_uint : Str → Option ℕ
  pub env_duration : Str → Option ℤ
  pub file_string : Str → Str → Option Str
  pub file_int : Str → Str → Option ℤ
  pub file_uint : Str → Str → Option ℕ
  pub file_duration : Str → Str → Option ℤ

abbrev pub is_ok : {E A : Type 0} → Result E A → Bool
is_ok (ok x) = true
is_ok (err e) = false

-- The environment wins over the file, and both win over the value that stood there.
abbrev pub merged : {A : Type 0} → Option A → Option A → A → A
merged (some x) file value = x
merged none (some x) value = x
merged none none value = value

module _ (viper : Settings Config) where
  -- A flag that was given wins over the value that stood there.
  abbrev pub flag_or : {A : Type 0} → Str → (Str → A) → A → A
  flag_or key get value = if viper.changed key then get key else value

  -- `--config` was given, and what it names could be loaded.
  abbrev pub is_loaded : Bool
  is_loaded =
      if viper.changed key_config_file
      then is_ok (load_config viper (viper.get_string key_config_file) new_config)
      else false

  abbrev pub file : Str
  file = viper.get_string key_config_file

  module _ (sources : Sources) where
    -- What viper documents of the order in which it looks a key up: the flags, the environment once
    -- viper.AutomaticEnv was called, the file. A key that none of them has leaves the configuration alone.
    pub record DecodesInOrder : Type 0 where
      pub node_port :
          (told : Merge) (cfg c : Config)
          → viper.unmarshal told cfg ≡ some c
          → c.private_interface.node_port
            ≡ flag_or key_private_node_port viper.get_int (
                merged
                  (if told.automatic_env then sources.env_int key_private_node_port else none)
                  (sources.file_int told.config_file key_private_node_port)
                  cfg.private_interface.node_port)
      pub api_port :
          (told : Merge) (cfg c : Config)
          → viper.unmarshal told cfg ≡ some c
          → c.private_interface.api_port
            ≡ flag_or key_private_api_port viper.get_int (
                merged
                  (if told.automatic_env then sources.env_int key_private_api_port else none)
                  (sources.file_int told.config_file key_private_api_port)
                  cfg.private_interface.api_port)
      pub net_iface_private :
          (told : Merge) (cfg c : Config)
          → viper.unmarshal told cfg ≡ some c
          → c.private_interface.net_iface_private
            ≡ flag_or key_private_net_iface_private viper.get_string (
                merged
                  (if told.automatic_env
                    then sources.env_string key_private_net_iface_private
                    else none)
                  (sources.file_string told.config_file key_private_net_iface_private)
                  cfg.private_interface.net_iface_private)
      pub clients_port :
          (told : Merge) (cfg c : Config)
          → viper.unmarshal told cfg ≡ some c
          → c.public_interface.clients_port
            ≡ flag_or key_public_clients_port viper.get_int (
                merged
                  (if told.automatic_env then sources.env_int key_public_clients_port else none)
                  (sources.file_int told.config_file key_public_clients_port)
                  cfg.public_interface.clients_port)
      pub net_iface_public :
          (told : Merge) (cfg c : Config)
          → viper.unmarshal told cfg ≡ some c
          → c.public_interface.net_iface_public
            ≡ flag_or key_public_net_iface_public viper.get_string (
                merged
                  (if told.automatic_env
                    then sources.env_string key_public_net_iface_public
                    else none)
                  (sources.file_string told.config_file key_public_net_iface_public)
                  cfg.public_interface.net_iface_public)
      pub checks_before_routing :
          (told : Merge) (cfg c : Config)
          → viper.unmarshal told cfg ≡ some c
          → c.node_health.checks_before_routing
            ≡ flag_or key_node_health_checks_before_routing viper.get_uint (
                merged
                  (if told.automatic_env
                    then sources.env_uint key_node_health_checks_before_routing
                    else none)
                  (sources.file_uint told.config_file key_node_health_checks_before_routing)
                  cfg.node_health.checks_before_routing)
      pub checks_timeout :
          (told : Merge) (cfg c : Config)
          → viper.unmarshal told cfg ≡ some c
          → c.node_health.checks_timeout
            ≡ flag_or key_node_health_checks_timeout viper.get_duration (
                merged
                  (if told.automatic_env
                    then sources.env_duration key_node_health_checks_timeout
                    else none)
                  (sources.file_duration told.config_file key_node_health_checks_timeout)
                  cfg.node_health.checks_timeout)
      pub black_list_after_fails :
          (told : Merge) (cfg c : Config)
          → viper.unmarshal told cfg ≡ some c
          → c.node_health.black_list_after_fails
            ≡ flag_or key_node_health_black_list_after_fails viper.get_int (
                merged
                  (if told.automatic_env
                    then sources.env_int key_node_health_black_list_after_fails
                    else none)
                  (sources.file_int told.config_file key_node_health_black_list_after_fails)
                  cfg.node_health.black_list_after_fails)
      pub black_list_expiry :
          (told : Merge) (cfg c : Config)
          → viper.unmarshal told cfg ≡ some c
          → c.node_health.black_list_expiry
            ≡ flag_or key_node_health_black_list_expiry viper.get_duration (
                merged
                  (if told.automatic_env
                    then sources.env_duration key_node_health_black_list_expiry
                    else none)
                  (sources.file_duration told.config_file key_node_health_black_list_expiry)
                  cfg.node_health.black_list_expiry)

    -- A setting is its flag; else, if a file was loaded, its variable of the environment, else its entry in
    -- the file; else its default.
    abbrev pub setting :
        {A : Type 0} → Str → (Str → A) → (Str → Option A) → (Str → Str → Option A) → A → A
    setting key get env from_file default =
        flag_or key get
          (if is_loaded then merged (env key) (from_file file key) default else default)

    pub record IsResolved (c : Config) : Type 0 where
      pub node_port :
          c.private_interface.node_port
          ≡ setting key_private_node_port viper.get_int sources.env_int sources.file_int
              new_config.private_interface.node_port
      pub api_port :
          c.private_interface.api_port
          ≡ setting key_private_api_port viper.get_int sources.env_int sources.file_int
              new_config.private_interface.api_port
      pub net_iface_private :
          c.private_interface.net_iface_private
          ≡ setting key_private_net_iface_private viper.get_string sources.env_string
              sources.file_string new_config.private_interface.net_iface_private
      pub clients_port :
          c.public_interface.clients_port
          ≡ setting key_public_clients_port viper.get_int sources.env_int sources.file_int
              new_config.public_interface.clients_port
      pub net_iface_public :
          c.public_interface.net_iface_public
          ≡ setting key_public_net_iface_public viper.get_string sources.env_string
              sources.file_string new_config.public_interface.net_iface_public
      pub checks_before_routing :
          c.node_health.checks_before_routing
          ≡ setting key_node_health_checks_before_routing viper.get_uint sources.env_uint
              sources.file_uint new_config.node_health.checks_before_routing
      pub checks_timeout :
          c.node_health.checks_timeout
          ≡ setting key_node_health_checks_timeout viper.get_duration sources.env_duration
              sources.file_duration new_config.node_health.checks_timeout
      pub black_list_after_fails :
          c.node_health.black_list_after_fails
          ≡ setting key_node_health_black_list_after_fails viper.get_int sources.env_int
              sources.file_int new_config.node_health.black_list_after_fails
      pub black_list_expiry :
          c.node_health.black_list_expiry
          ≡ setting key_node_health_black_list_expiry viper.get_duration sources.env_duration
              sources.file_duration new_config.node_health.black_list_expiry
