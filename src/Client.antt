-- ===== src/Client.antt =====
-- src/ws/client/: the WebSocket client.
pub mod Config
pub mod Receive
pub mod State
pub mod Handshake
pub mod Secure
pub mod Loop
pub mod Connection
pub mod Liveness
pub mod Login
pub mod Requests
pub mod Rounds
pub mod Online
pub mod Single
pub mod Delivery
pub mod Heartbeat
