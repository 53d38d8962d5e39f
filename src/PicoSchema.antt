-- ===== src/PicoSchema.antt =====
-- pico-engine-core/src/picoSchema.ts and ruleOutcomes.ts: the schema of a pico, from those of its
-- rulesets, the part of it that a channel may see, and the outcomes of its rules for an event.
pub mod Types
pub mod Merge
pub mod Channel
pub mod Sources
pub mod Events
pub mod Origins
pub mod Installations
pub mod Allowed
pub mod Outcomes
pub mod Selected
pub mod Firsts
