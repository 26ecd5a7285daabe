-- ===== src/Examples.antt =====
-- Concrete inputs, at which the theorems with hypotheses are applied.
mod Memory
mod Fallbacks
mod Stores
mod Settings
mod Handlers
mod Shells
mod Commands
mod Registrations
mod Processes
mod Thresholds
mod Pipes
mod Rivals
mod Waiting
mod Deliveries
mod Tools
mod Pages
mod Crowds
