-- ===== src/Nomad.antt =====
-- The package policy/nomad: policies as Nomad's API gives them.
pub mod Value
pub mod Validate
pub mod Parse
