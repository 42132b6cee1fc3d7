-- ===== src/Service.antt =====
-- cloud/services: the operations on UCloud, one module for each resource. Each is an operation on the
-- state of a cluster scope, or of a machine scope where the source takes one, and a method's calls
-- stand in the source's order. `NewService` only makes the SDK's clients, which are the environment.
pub mod Call
pub mod Holds
pub mod Emits
pub mod Sends
pub mod Ignores
pub mod Makes
pub mod Gives
pub mod Vpc
pub mod Subnet
pub mod Eip
pub mod Firewall
pub mod Nat
pub mod Timer
pub mod Wait
pub mod Request
pub mod Group
pub mod Ulb
pub mod Backend
pub mod Capu
pub mod Terminate
pub mod Instance
pub mod Bastion
