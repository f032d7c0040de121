-- ===== src/Gateway.antt =====
-- packages/gateway/src/server.ts: the gateway as a whole.
pub mod Runtime
pub mod Exchange
pub mod Checks
pub mod Handler
pub mod Hooks
pub mod Run
