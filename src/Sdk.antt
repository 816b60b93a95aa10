-- ===== src/Sdk.antt =====
-- The package `sdk`: policies, actions and evaluations.
pub mod Policy
pub mod Action
pub mod Eval
mod Tests
