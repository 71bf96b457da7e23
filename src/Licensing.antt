-- ===== src/Licensing.antt =====
-- Tokens of Project-source/forge-server/app/licensing and of verifier-sdk/python.
pub mod Base64
pub mod Envelope
pub mod Token
