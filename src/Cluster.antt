-- ===== src/Cluster.antt =====
-- The boundary of the operator: the objects of the Kubernetes API and of the Splunk REST API that
-- the code reads and writes, the environment that answers its calls, and the actions that make them.
mod Objects
mod Calls
mod Action
pub mod Yields
pub mod Emits
pub mod Costs
pub mod Fixes
pub mod Runs
pub use Objects.*
pub use Calls.*
unfoldable pub use Action.*
