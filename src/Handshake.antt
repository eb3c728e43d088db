-- ===== src/Handshake.antt =====
-- The simple handshake (protocol/handshake.rs).
pub mod Machine
pub mod Packets
pub mod Exchange
pub mod Waits
pub mod Tests
