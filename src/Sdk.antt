-- ===== src/Sdk.antt =====
-- The client SDK, verifier-sdk/python/forge_verifier.
pub mod Verifier
pub mod Online
pub mod Host
pub mod Fingerprint
pub mod Facade
