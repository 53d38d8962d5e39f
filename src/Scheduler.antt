-- ===== src/Scheduler.antt =====
-- pico-engine-core/src/modules/schedule.ts: the scheduler of events.
pub mod State
pub mod Timer
pub mod Firing
pub mod Cancel
pub mod Entity
pub mod Raising
pub mod Forgetting
