-- ===== src/Facade.antt =====
-- parsec.go: the operations that compose the packages.
pub mod Limits
pub mod Refreshing
pub mod Keys
pub mod Channels
