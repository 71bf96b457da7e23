-- ===== src/Admin/Catalog.antt =====
-- The endpoints of products and customers.
pub mod Products
pub mod Customers
pub mod Laws
