-- ===== src/Integration.antt =====
-- The tools of integration/cmd/, which the integration tests run.
pub mod ForwardTarget
pub mod ForwardCert
