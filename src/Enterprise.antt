-- ===== src/Enterprise.antt =====
-- The Splunk deployments of pkg/splunk/enterprise.
pub mod Names
pub mod SearchHeads
pub mod ShcSecret
pub mod Indexers
pub mod IdxcSecret
pub mod Claims
pub mod Slots
pub mod SmartStore
pub mod ClusterMaster
pub mod MonitoringConsole
