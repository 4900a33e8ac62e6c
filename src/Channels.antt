-- ===== src/Channels.antt =====
-- The package channels: names, patterns, the store of channels and the manager.
mod Wire
pub mod Name
pub mod Pattern
pub mod Store
pub mod Manager
