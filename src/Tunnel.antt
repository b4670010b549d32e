-- ===== src/Tunnel.antt =====
-- The package tunnel: how a connection's rule and adapter are found.
pub mod Dispatch
pub mod Selection
pub mod Choice
pub mod RuleCache
pub mod Sticky
pub mod Prehandle
pub mod MappedTargets
pub mod Modes
