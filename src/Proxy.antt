-- ===== src/Proxy.antt =====
-- src/proxy.rs: the HTTP proxy server. Each module below is one part of it.
pub mod Request
pub mod Http
pub mod Message
pub mod Socks5
pub mod Tunnel
pub mod Response
pub mod Forward
pub mod Server
pub mod Serve
