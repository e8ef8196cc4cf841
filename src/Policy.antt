-- ===== src/Policy.antt =====
-- internal/registry/policy: the request policy of the data plane.
pub mod License
pub mod Match
pub mod Severity
pub mod Osv
pub mod Engine
mod Tests
