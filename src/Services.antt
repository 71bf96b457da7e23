-- ===== src/Services.antt =====
-- app/services of Project-source/forge-server, with the key manager that they share.
pub mod External
pub mod Repository
pub mod Keys
pub mod Leases
pub mod Edge
pub mod Worker
pub mod Crl
pub mod Licenses
pub mod Issuance
pub mod Passwords
pub mod Users
