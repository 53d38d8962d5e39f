-- ===== src/Emits.antt =====
-- packages/krl-compiler/src/deriveEmits.js: the events and actions that a rule may send, and the
-- functions of its condition that a caller can query in advance.
pub mod Statements
pub mod Rules
pub mod Prechecks
pub mod Conditions
