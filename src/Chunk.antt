-- ===== src/Chunk.antt =====
-- The chunk stream codec (protocol/chunk.rs).
pub mod State
pub mod Peek
pub mod Decoder
pub mod Tests
pub mod Encoder
pub mod Fields
pub mod Sync
pub mod Receive
pub mod Progress
pub mod Open
pub mod Rounds
pub mod RoundTrip
pub mod Pair
pub mod Safety
pub mod Robust
pub mod Fragments
pub mod Splits
