-- ===== src/Tests.antt =====
-- Concrete objects, a concrete environment, and the theorems at concrete inputs.
mod Samples
mod World
mod Balancer
mod Fading
mod Fields
mod Outcomes
mod Hosts
mod Ledger
mod Lives
mod Loses
mod Pauses
mod Refusals
mod Removal
mod Shifting
mod Supplies
mod Watching
mod Witnesses
