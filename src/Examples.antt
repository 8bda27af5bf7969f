-- ===== src/Examples.antt =====
-- The theorems at concrete inputs: small networks, managers and requests.
pub mod Data
mod Channels
mod Handshakes
mod Forwards
mod Requests
mod Reached
mod Running
mod Endings
mod Sessions
mod Startup
mod Written
mod Asked
