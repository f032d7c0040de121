-- ===== src/Tests.antt =====
-- The theorems at concrete inputs, and the code run on them.
mod Limits
mod Upstream
mod Routes
mod Caching
mod Edges
mod Pipeline
mod Sockets
mod Operators
