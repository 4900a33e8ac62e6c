-- ===== src/Auth.antt =====
-- auth: what a token grants, the keys that sign it, and the rotation of refresh tokens.
pub mod Scope
pub mod KeyRing
pub mod Refresh
pub mod Issuer
pub mod Signer
pub mod Verifier
pub mod SubscribeAuthorizer
pub mod Snapshots
