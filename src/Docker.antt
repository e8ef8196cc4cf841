-- ===== src/Docker.antt =====
-- internal/registry/docker: the OCI image registry.
pub mod Gc
mod Tests
