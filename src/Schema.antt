-- ===== src/Schema.antt =====
-- packages/krl-compiler/src/rulesetSchema.js: the schema of a ruleset's annotated rules and
-- functions.
pub mod Docs
pub mod Queries
pub mod Index
pub mod Build
