-- ===== src/Api.antt =====
-- The API types of api/v1alpha3, one module for each of its files that declares types, and its
-- webhooks.
pub mod Network
pub mod Cluster
pub mod Machine
