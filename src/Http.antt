-- ===== src/Http.antt =====
-- src/http/: the fallback transport over HTTP with server-sent events.
pub mod Lines
pub mod Chunking
pub mod Events
pub mod Push
pub mod Config
pub mod Libraries
pub mod Client
pub mod Subscription
pub mod Reconnection
pub mod Endpoint
pub mod Emitter
pub mod Broadcast
