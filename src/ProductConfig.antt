-- ===== src/ProductConfig.antt =====
-- internal/productconfig: the configuration of the product on one appliance.
pub mod Identity
pub mod Profiles
