-- ===== src/Controller.antt =====
-- controllers: the two reconcilers.
pub mod Pause
pub mod Requests
pub mod Finalizers
pub mod Cluster
pub mod Machine
pub mod Watches
