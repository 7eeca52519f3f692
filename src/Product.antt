-- ===== src/Product.antt =====
-- src/filter: the products that a policy is compiled to.
pub mod Buffer
pub mod Regex
pub mod Quote
pub mod Emit
mod Tests
