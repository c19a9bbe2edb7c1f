-- ===== src/Control.antt =====
-- pkg/splunk/controller.
pub mod Merge
pub mod Pods
pub mod Statefulset
pub mod Apply
pub mod Finalizers
pub mod Reconcile
pub mod Progress
