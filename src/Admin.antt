-- ===== src/Admin.antt =====
-- The admin side of Project-source/forge-server/app: permissions, sessions, rate limits, login, and the
-- endpoints on top of them.
pub mod Permissions
pub mod Sessions
pub mod Limits
pub mod Access
pub mod Auth
pub mod Profile
pub mod Catalog
pub mod Alerts
pub mod Errors
pub mod Licenses
pub mod Bootstrap
