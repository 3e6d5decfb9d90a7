-- ===== src/Service.antt =====
-- internal/service/service.go, a module for each group of methods.
pub mod World
pub mod Teardown
pub mod Requests
pub mod Reconcile
pub mod Ssh
pub mod Create
pub mod Steps
pub mod Slots
pub mod Healing
pub mod Creation
pub mod Listeners
pub mod Upkeep
pub mod Reads
pub mod Endpoint
pub mod Outcomes
pub mod Histories
pub mod Composed
