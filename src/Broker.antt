-- ===== src/Broker.antt =====
-- The broker (broker/): it hands runners to sessions and registers runners.
pub mod Outcome
pub mod Model
pub mod Stacklist
pub mod Config
pub mod Store
pub mod Service
pub mod Handler
pub mod Router
pub mod Healthcheck
pub mod Main
pub mod Process
