-- ===== src/Routing.antt =====
-- lib/routing.js: how a child is sent through the proxy.
pub mod Proxied
pub mod Hidden
