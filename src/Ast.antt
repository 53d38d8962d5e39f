-- ===== src/Ast.antt =====
-- packages/krl-parser/src/types.ts: the syntax tree that the parser hands to the compiler.
-- A node is a value of `Node`, with a constructor for each `type`; a missing child (null or
-- undefined) is `absent`. Identifiers, keywords and keys that the parser makes with a fixed node
-- type are kept as their text, a number as the text that JSON.stringify gives it, and a regular
-- expression as its source with its flags `g` and `i`. `block` is an array of statements that may
-- be null, `on_final` the text "on final" in the place of a condition.
mod Defs
mod Walk
unfoldable pub use Defs.*
unfoldable pub use Walk.*
