-- ===== src/Registry.antt =====
-- The registry module of the API (apps/api/src/modules/registry).
pub mod Csv
