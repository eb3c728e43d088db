-- ===== src/Enhanced.antt =====
-- Enhanced RTMP: codecs by FourCC, capabilities and their negotiation (media/fourcc.rs,
-- protocol/enhanced.rs, server/config.rs).
pub mod FourCc
pub mod Capabilities
pub mod Negotiation
pub mod Tests
