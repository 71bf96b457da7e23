-- ===== src/Adapters.antt =====
-- app/adapters of Project-source/forge-server: the parts with a logic of their own.
pub mod Email
pub mod Storage
