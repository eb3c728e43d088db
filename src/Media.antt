-- ===== src/Media.antt =====
-- Media: FLV tags and the buffer of the current group of pictures (media/).
pub mod Flv
pub mod Gop
pub mod Codes
pub mod Window
pub mod Catchup
pub mod Whole
pub mod Tests
