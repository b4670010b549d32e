-- ===== src/Groups.antt =====
-- The package outboundgroup: how a group of proxies is made, and how it
-- chooses one of them.
pub mod Selection
pub mod Choosing
pub mod RoundRobin
pub mod Parsing
pub mod Found
pub mod Named
