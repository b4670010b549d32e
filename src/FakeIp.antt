-- ===== src/FakeIp.antt =====
-- component/fakeip/pool.go: the pool of made-up addresses for domain names.
pub mod Address
pub mod Pool
pub mod Scan
pub mod Ready
pub mod Lookup
pub mod LookBack
pub mod New
