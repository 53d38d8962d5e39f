-- ===== src/Compile.antt =====
-- packages/krl-compiler/src/compile.js and src/c: what compiling a ruleset records and refuses
-- before any code is made.
pub mod EventScope
pub mod Parameters
pub mod Check
pub mod Declarations
use pico_engine.Base.{String, ◌==◌, if◌then◌else◌, List, [], ◌∷◌, ◌++◌, Option}
use pico_engine.Ast.{MetaProperty, Ruleset}
use pico_engine.Schema.Queries.{Result, ok, err}
use pico_engine.Schema.Build.{RulesetSchema, build_ruleset_schema}
use pico_engine.Lint.{lint_annotations}

-- The ids of every `shares` in the `meta` block.
unfoldable pub shares_of : List MetaProperty → List String
shares_of [] = []
shares_of (p ∷ ps) = let rest = shares_of ps in if p.key == "shares" then p.ids ++ rest else rest

-- `rulesetSchema` of `compileRulesetAst`, with the warnings that its lint adds.
unfoldable pub compile_schema : Ruleset → Result (Option RulesetSchema × List String)
unfolding shares_of
compile_schema ast = elim (build_ruleset_schema ast (shares_of ast.meta)) [
  | err e ↦ err e
  | ok schema ↦ ok (schema, lint_annotations ast schema)
]
