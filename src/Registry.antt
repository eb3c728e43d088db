-- ===== src/Registry.antt =====
-- The registry of streams (registry/).
pub mod Frame
pub mod Entry
pub mod Store
pub mod Expiry
pub mod Keys
pub mod Publishing
pub mod Owner
pub mod Subscribers
pub mod Join
pub mod Tests
