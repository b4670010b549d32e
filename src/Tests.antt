-- ===== src/Tests.antt =====
-- Runs of the definitions on small inputs, and the theorems at inputs that meet their hypotheses.
mod Trie
mod LruCache
mod FakeIp
mod Groups
mod Transport
mod Rule
mod Tunnel
mod Socks5
mod Config
mod Dns
mod DnsServer
mod Queue
mod Proxies
mod Socks4
mod Pool
mod DnsConfig
