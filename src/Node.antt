-- ===== src/Node.antt =====
-- The node's side: cmd/node, which finds its load balancers, and pkg/nodenetwork, which reports to them.
pub mod Targets
pub mod Dispatcher
pub mod Client
pub mod Api
pub mod Main
mod Tests
