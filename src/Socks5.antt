-- ===== src/Socks5.antt =====
-- transport/socks5/socks5.go: addresses, packets and the handshakes of SOCKS 5.
pub mod Stream
pub mod Addr
pub mod Handshake
pub mod Framing
pub mod Sessions
