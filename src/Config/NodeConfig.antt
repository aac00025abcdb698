-- ===== src/Config/NodeConfig.antt =====
-- config/node/config.go.
pub mod Parse
pub mod Flags
use gale_lb.Prelude.{
  ℕ, zero, suc, ◌+◌, ◌≡◌, List, [], ◌∷◌, ◌++◌, Option, none, some, Bool, nat_beq, if◌then◌else◌,
  Result, ok, err,
}
use gale_lb.Prelude.Int.{ℤ}
use gale_lb.Prelude.Text.{Str, codes}
use gale_lb.Config.Load.{Settings, LoadError, load_config, get_config_file_path}

pub record Address : Type 0 where
  pub hostname : Str
  pub ip : Str
  pub port : ℤ

pub record Config : Type 0 where
  pub addresses : List Address

abbrev pub key_load_balancer_addresses : Str
key_load_balancer_addresses = codes "load_balancer.addresses"

abbrev pub default_config_file : Str
default_config_file = codes "node.toml"

abbrev pub load_balancer_address_arguments : ℕ
load_balancer_address_arguments = 3

unfoldable pub new_config : Config
new_config = record { addresses = [] }

-- The text in front of the first separator, and the text behind it.
unfoldable pub cut : ℕ → Str → Option (Str × Str)
cut sep [] = none
cut sep (c ∷ s) =
    if nat_beq c sep
    then some ([], s)
    else elim (cut sep s) [ none ↦ none | some (front, rest) ↦ some (c ∷ front, rest) ]

-- `strings.SplitN(s, sep, n)` for a positive `n`: at most `n` parts, the last one unsplit.
unfoldable pub split_n : ℕ → Str → ℕ → List Str
unfolding cut
split_n sep s zero = []
split_n sep s (suc zero) = s ∷ []
split_n sep s (suc (suc n)) = elim (cut sep s) [
  | none ↦ s ∷ []
  | some (front, rest) ↦ front ∷ split_n sep rest (suc n)
]

pub data ConfigError : Type 0 where
  invalid_address : ℕ → Str → ConfigError

-- One entry: three parts, the last of which is handed to `viper.GetInt`.
unfoldable pub parse_address : (Str → ℤ) → ℕ → Str → Result ConfigError Address
unfolding split_n
parse_address get_int idx addr = elim (split_n b':' addr load_balancer_address_arguments) [
  | hostname ∷ ip ∷ port ∷ [] ↦ ok (record { hostname = hostname; ip = ip; port = get_int port })
  | _ ↦ err (invalid_address idx addr)
]

-- The loop of `parseLBAddresses`, from the index `idx` on.
unfoldable pub parse_from : (Str → ℤ) → ℕ → List Str → Result ConfigError (List Address)
unfolding parse_address
parse_from get_int idx [] = ok []
parse_from get_int idx (addr ∷ addrs) =
    let rest = parse_from get_int (idx + 1) addrs in
    elim (parse_address get_int idx addr) [
      | err e ↦ err e
      | ok a ↦ elim rest [ err e ↦ err e | ok found ↦ ok (a ∷ found) ]
    ]

unfoldable pub parse_lb_addresses : (Str → ℤ) → List Str → Result ConfigError (List Address)
unfolding parse_from
parse_lb_addresses get_int addrs = parse_from get_int 0 addrs

module _ (viper : Settings Config) where
  -- An error ends the process (`Fatalf`).
  unfoldable pub apply_flags_to_config : Config → Result ConfigError Config
  unfolding parse_lb_addresses
  apply_flags_to_config cfg =
      if viper.changed key_load_balancer_addresses
      then elim (parse_lb_addresses viper.get_int
          (viper.get_string_slice key_load_balancer_addresses)) [
            | err e ↦ err e
            | ok addrs ↦ ok (record { addresses = addrs })
          ]
      else ok cfg

  unfoldable pub init_config : Result ConfigError Config
  unfolding load_config get_config_file_path new_config apply_flags_to_config
  init_config = elim (load_config viper (get_config_file_path viper) new_config) [
    | err e ↦ apply_flags_to_config new_config
    | ok cfg ↦ apply_flags_to_config cfg
  ]
