-- ===== src/Dns.antt =====
-- The package dns: the enhancer that maps addresses back to names, the resolver that asks
-- upstream servers, and the handlers that answer the clients of the server.
pub mod Enhancer
pub mod Mapping
pub mod Messages
pub mod Exchange
pub mod Caching
pub mod Upstreams
pub mod Parallel
pub mod Middleware
pub mod Handlers
pub mod Results
pub mod Interleaving
pub mod Merging
pub mod Remembering
pub mod Chain
