-- ===== src/LoadBalancer.antt =====
-- The command of the load balancer, cmd/lb, and its HTTP API.
pub mod Api
pub mod Command
mod Tests
