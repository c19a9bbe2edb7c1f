-- ===== src/Util.antt =====
-- pkg/splunk/util.
pub mod Resource
pub mod Versions
pub mod Tokens
pub mod Owners
pub mod Secrets
