-- ===== src/Derive.antt =====
-- packages/krl-compiler/src/deriveSchema.js: what the compiler derives from a rule.
pub mod Globals
pub mod Where
pub mod Reads
pub mod Entries
pub mod Attrs
