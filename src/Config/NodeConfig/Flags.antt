-- ===== src/Config/NodeConfig/Flags.antt =====
-- `AddConfigFlags` of config/node/config.go: its flags with their defaults, and those that viper is told of.
use gale_lb.Prelude.{List, [], ◌∷◌}
use gale_lb.Prelude.Map.{Map}
use gale_lb.Prelude.Text.{Str}
use gale_lb.Config.Load.{key_config_file}
use gale_lb.Config.LoadBalancer.Flags.{Flag, string_flag, string_array_flag}
use gale_lb.Config.NodeConfig.{key_load_balancer_addresses, default_config_file}

unfoldable pub add_config_flags : Map Str Flag
add_config_flags =
    (key_config_file, string_flag default_config_file)
    ∷ (key_load_balancer_addresses, string_array_flag [])
    ∷ []

unfoldable pub bound_flags : List Str
bound_flags = key_config_file ∷ key_load_balancer_addresses ∷ []
