-- ===== src/Message.antt =====
-- The messages and their encoding (protocol/message.rs).
pub mod Types
pub mod Encode
pub mod Parse
pub mod Sendable
pub mod Arguments
pub mod RoundTrip
pub mod Total
pub mod Connect
pub mod Commands
pub mod Tests
