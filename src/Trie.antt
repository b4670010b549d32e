-- ===== src/Trie.antt =====
-- component/trie: the domain trie.
pub mod Domain
pub mod Split
pub mod Node
pub mod Store
pub mod Priority
pub mod Search
