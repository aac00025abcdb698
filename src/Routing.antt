-- ===== src/Routing.antt =====
-- pkg/routing and pkg/common: the consistent hash ring, the router above it, the XDP loader.
pub mod Label
pub mod Ring
pub mod Hashing
pub mod Xdp
pub mod Router
