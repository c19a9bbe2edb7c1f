-- ===== src/Common.antt =====
-- pkg/splunk/common: names.go, types.go and the helpers of util.go.
pub mod Names
pub mod Meta
pub mod Slices
pub mod Spec
pub mod Labels
