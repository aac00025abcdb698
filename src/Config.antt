-- ===== src/Config.antt =====
-- config/: command-line flags and the configuration file, as package viper hands them on.
pub mod Load
pub mod LoadBalancer
pub mod NodeConfig
mod Tests
