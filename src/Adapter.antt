-- ===== src/Adapter.antt =====
-- The package adapter: a proxy with its state.
pub mod Proxy
pub mod Limits
pub mod Delays
