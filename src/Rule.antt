-- ===== src/Rule.antt =====
-- The package rule with the metadata and the rule types of the package constant.
pub mod Metadata
pub mod Strings
pub mod Kinds
pub mod Parser
pub mod Matching
pub mod Outcomes
pub mod Faults
pub mod Hosts
pub mod Processes
