-- ===== src/DocComments.antt =====
-- krl-parser/src/docComment.ts: the doc comments of rules and declarations.
pub mod Split
pub mod Words
pub mod Tags
pub mod Parse
pub mod Quoting
