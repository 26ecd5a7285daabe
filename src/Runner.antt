-- ===== src/Runner.antt =====
-- The runner (runner/): it runs the commands of one session in persistent shells.
pub mod Shell
pub mod Validator
pub mod Manager
pub mod Execute
pub mod Sessions
pub mod Identity
pub mod Registration
pub mod Process
pub mod Router
