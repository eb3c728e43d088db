-- ===== src/Amf.antt =====
-- AMF0 values, their encoder and their decoder (amf/amf0.rs, amf/value.rs).
pub mod Text
pub mod Value
pub mod Encoder
pub mod Reads
pub mod Decoder
pub mod Texts
pub mod Encodable
pub mod Levels
pub mod Loops
pub mod RoundTrip
pub mod Ends
pub mod Total
pub mod Access
pub mod Tests
