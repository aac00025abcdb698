-- ===== src/Config/Tests.antt =====
-- The theorems on the configurations at concrete settings.
use gale_lb.Prelude.{
  ◌≡◌, ◌↔◌, List, [], ◌∷◌, none, some, true, false, ◌||◌, if◌then◌else◌, refl, ok,
}
use gale_lb.Prelude.Int.{ℤ, pos}
use gale_lb.Prelude.Equality.{bytes_eq, bytes_beq}
use gale_lb.Prelude.Text.{Str, codes}
use gale_lb.Config.Load.{Settings, key_config_file}
use gale_lb.Config.LoadBalancer.{Config, key_private_node_port, key_private_api_port}
use gale_lb.Config.LoadBalancer.Sources.{Sources}
use gale_lb.Prelude.Map.{lookup}
use gale_lb.Config.LoadBalancer.{new_config, apply_flags_to_config}
use gale_lb.Config.LoadBalancer.Flags.{
  int_flag, string_flag, uint_flag, duration_flag, add_config_flags,
}
use gale_lb.Config.LoadBalancer.Flags.Defaults.{AtDefaults, apply_flags_to_config-new_config}
use gale_lb.Config.NodeConfig.{Address, parse_lb_addresses}
use gale_lb.Config.NodeConfig.Parse.{AllRead, parse_lb_addresses_iff}

-- `--config lb.toml --private_interface.node_port 9000`; the environment and the file both set the port of
-- the API.
abbrev sources : Sources
sources = record {
  env_string = λ key. none;
  env_int = λ key. if bytes_beq key key_private_api_port then some (pos 5556) else none;
  env_uint = λ key. none;
  env_duration = λ key. none;
  file_string = λ path key. none;
  file_int = λ path key. if bytes_beq key key_private_api_port then some (pos 5557) else none;
  file_uint = λ path key. none;
  file_duration = λ path key. none;
}

abbrev given : Settings Config
given = record {
  changed = λ key. bytes_beq key key_private_node_port || bytes_beq key key_config_file;
  readable = λ path. true;
  unmarshal = λ told cfg. some (record cfg {
    private_interface = record (cfg.private_interface) {
      node_port = pos 9000;
      api_port = if told.automatic_env then pos 5556 else pos 5557;
    };
  });
  get_string = λ key. codes "lb.toml";
  get_int = λ key. pos 9000;
  get_uint = λ key. 0;
  get_duration = λ key. pos 0;
  get_string_slice = λ key. [];
}

-- Each flag is given, with its default.
abbrev defaults : Settings Config
defaults = record {
  changed = λ key. true;
  readable = λ path. false;
  unmarshal = λ told cfg. none;
  get_string = λ key. elim (lookup key add_config_flags) [ some (string_flag s) ↦ s | _ ↦ [] ];
  get_int = λ key. elim (lookup key add_config_flags) [ some (int_flag n) ↦ n | _ ↦ pos 0 ];
  get_uint = λ key. elim (lookup key add_config_flags) [ some (uint_flag n) ↦ n | _ ↦ 0 ];
  get_duration =
      λ key. elim (lookup key add_config_flags) [ some (duration_flag n) ↦ n | _ ↦ pos 0 ];
  get_string_slice = λ key. [];
}

at_defaults : AtDefaults defaults
at_defaults = record {
  ints = λ k n e. rw (e, defaults) refl;
  strings = λ k s e. rw (e, defaults) refl;
  uints = λ k n e. rw (e, defaults) refl;
  durations = λ k n e. rw (e, defaults) refl;
}

apply_flags_to_config-new_config_example : apply_flags_to_config defaults new_config ≡ new_config
apply_flags_to_config-new_config_example = apply_flags_to_config-new_config defaults at_defaults

-- No setting is named by a number.
abbrev unset : Str → ℤ
unset key = pos 0

abbrev entries : List Str
entries = codes "lb:10.0.0.7:7070" ∷ []

abbrev read : List Address
read = record { hostname = codes "lb"; ip = codes "10.0.0.7"; port = pos 0 } ∷ []

parse_lb_addresses_iff_example :
    (parse_lb_addresses unset entries ≡ ok read) ↔ AllRead unset entries read
parse_lb_addresses_iff_example = parse_lb_addresses_iff unset entries read
