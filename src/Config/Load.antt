-- ===== src/Config/Load.antt =====
-- config/common.go. Packages viper and cobra are parameters: whether a flag was given, whether the file at
-- a path can be read, what viper decodes, and what the merged settings say under a key.
use gale_lb.Prelude.{ℕ, Bool, List, [], ◌∷◌, Option, none, some, if◌then◌else◌, Result, ok, err}
use gale_lb.Prelude.Int.{ℤ}
use gale_lb.Prelude.Text.{Str, codes}

pub data LoadError : Type 0 where
  no_path read_failed unmarshal_failed : LoadError

abbrev pub key_config_file : Str
key_config_file = codes "config"

-- What viper was told before it decodes: the file of viper.SetConfigFile, and whether viper.AutomaticEnv
-- lets it look each key up in the environment as well.
pub record Merge : Type 0 where
  pub config_file : Str
  pub automatic_env : Bool

pub record Settings (V : Type 0) : Type 0 where
  -- cmd.Flags().Changed
  pub changed : Str → Bool
  -- viper.ReadInConfig, for the file at a path
  pub readable : Str → Bool
  -- viper.Unmarshal over a configuration
  pub unmarshal : Merge → V → Option V
  pub get_string : Str → Str
  pub get_int : Str → ℤ
  pub get_uint : Str → ℕ
  pub get_duration : Str → ℤ
  pub get_string_slice : Str → List Str

module _ {V : Type 0} (viper : Settings V) where
  unfoldable pub load_config : Str → V → Result LoadError V
  load_config [] cfg = err no_path
  load_config (c ∷ path) cfg =
      let told : Merge = record { config_file = c ∷ path; automatic_env = Bool.true } in
      if viper.readable told.config_file
      then elim (viper.unmarshal told cfg) [ none ↦ err unmarshal_failed | some loaded ↦ ok loaded ]
      else err read_failed

  unfoldable pub get_config_file_path : Str
  get_config_file_path =
      if viper.changed key_config_file then viper.get_string key_config_file else []
