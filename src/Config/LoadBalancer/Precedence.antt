-- ===== src/Config/LoadBalancer/Precedence.antt =====
-- Where each setting of lb/config.go comes from.
use gale_lb.Prelude.{true}
use gale_lb.Config.Load.{Settings, Merge}
use gale_lb.Config.LoadBalancer.{Config}
use gale_lb.Config.LoadBalancer.Sources.{Sources, file}
use gale_lb.Config.LoadBalancer.Flagged.{Flagged}

module _ (viper : Settings Config) (sources : Sources) where
  abbrev told : Merge
  told = record { config_file = file viper; automatic_env = true }
