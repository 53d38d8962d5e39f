-- ===== src/Modules.antt =====
-- pico-engine-core/src/moduleDependencies.ts: the modules that rulesets use.
pub mod Graph
pub mod Walks
mod Search
mod Fuel
pub mod Cycles
pub mod Messages
pub mod Validate
