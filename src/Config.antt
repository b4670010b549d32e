-- ===== src/Config.antt =====
-- The package config: the proxies and their groups in an order in which they can be built, the
-- rules, the hosts and the DNS server.
pub mod Graph
pub mod Changes
pub mod Sorting
pub mod Balance
pub mod Members
pub mod Rounds
pub mod Walks
pub mod Building
pub mod Order
pub mod Proxies
pub mod Known
pub mod Complete
pub mod Rules
pub mod Served
pub mod Hosts
pub mod Localhost
pub mod NameServers
pub mod DnsSetup
pub mod DnsChecks
pub mod ServerChecks
