-- ===== src/Lint.antt =====
-- packages/krl-compiler/src/annotationLint.js: the warnings on doc comments. A warning is its
-- text; its place in the source is left out.
pub mod Attrs
pub mod Names
pub mod Types
use pico_engine.Base.{String, List, [], ◌++◌, Option, none, some}
use pico_engine.Ast.{Ruleset}
use pico_engine.Schema.Build.{Operation, RulesetSchema}
use pico_engine.Lint.Attrs.{lint_unused_doc_attrs}
use pico_engine.Lint.Names.{
  lint_unknown_doc_tags, lint_annotated_functions_not_shared, lint_example_keys,
}
use pico_engine.Lint.Types.{lint_same_ruleset_attr_type_conflicts}

unfoldable pub lint_schema : Ruleset → Option RulesetSchema → List String
unfolding lint_unused_doc_attrs lint_example_keys lint_same_ruleset_attr_type_conflicts
lint_schema ast none = []
lint_schema ast (some schema) =
    lint_unused_doc_attrs ast schema.operations
    ++ (lint_example_keys ast schema ++ lint_same_ruleset_attr_type_conflicts schema.operations)

unfoldable pub lint_annotations : Ruleset → Option RulesetSchema → List String
unfolding lint_unknown_doc_tags lint_annotated_functions_not_shared lint_schema
lint_annotations ast schema =
    lint_unknown_doc_tags ast ++ (lint_annotated_functions_not_shared ast ++ lint_schema ast schema)
