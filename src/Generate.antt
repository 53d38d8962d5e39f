-- ===== src/Generate.antt =====
-- packages/krl-generator/src/index.js and src/g: the printer of syntax trees.
-- `generate(ast, indentLevel)` is `gen level ast`, with `ind(n)` as `ind (level + n)` and
-- `gen(ast, n)` as a call at `level + n`. A printer reads the texts of its children, which
-- `gen_all` makes, where it asks for a child's type it reads the child too. The printers of
-- `Ruleset`, `RulesetMeta` and `RulesetMetaProperty` are not modelled.
mod Text
mod Pieces
mod Events
mod Print
pub mod Brackets
unfoldable pub use Text.{
  json_string, join, trim, trim_start, trim_end, all_space, cat, is_space, is_code, below,
}
unfoldable pub use Print.{gen, gen_all, gen_rule, generate}
