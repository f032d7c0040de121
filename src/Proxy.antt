-- ===== src/Proxy.antt =====
-- packages/gateway/src/proxy: forwarding a request to an upstream target. The balancer of the
-- targets is a module of its own.
pub mod Headers
pub mod Retry
pub mod Upstream
pub mod Errors
