-- ===== src/Socks4.antt =====
-- The package socks4.
pub mod Handshake
pub mod Sessions
