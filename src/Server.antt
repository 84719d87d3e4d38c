-- ===== src/Server.antt =====
-- src/ws/server/: the server's side of a connection.
pub mod Config
pub mod Accept
pub mod Agreement
pub mod Greeting
pub mod NoiseAgreement
pub mod Online
pub mod Session
pub mod Task
pub mod Launch
pub mod Handle
pub mod Heartbeat
pub mod Flush
pub mod Single
pub mod Delivery
pub mod Invariant
