-- ===== src/Server.antt =====
-- One connection of the server (server/connection.rs).
pub mod Handler
pub mod Connection
pub mod Subscriber
pub mod Commands
pub mod Publisher
pub mod Receive
pub mod Wire
pub mod Naturality
pub mod Channel
pub mod Delivery
pub mod Ownership
pub mod Soundness
pub mod Media
pub mod Publishing
pub mod Life
pub mod End
pub mod Run
pub mod Slow
pub mod Resume
pub mod Tests
