-- ===== src/Scenarios.antt =====
-- Concrete runs of the operator.
mod World
mod Pods
mod Managers
mod Rest
pub mod Stores
pub mod Requests
pub mod Rolling
mod Console
