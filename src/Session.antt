-- ===== src/Session.antt =====
-- The state of a session and of its streams (session/state.rs, session/stream.rs).
pub mod Stream
pub mod State
pub mod Acknowledgement
pub mod Streams
pub mod Tests
