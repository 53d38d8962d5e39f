-- ===== src/Samples/Builds.antt =====
-- The theorems on whole schemas, at a ruleset with one annotated rule and one annotated function.
use pico_engine.Base.{
  String, ◌≡◌, ◌↔◌, refl, List, [], ◌∷◌, none, some, map, In, lookup, insert, has, marked, is_proto,
}
use pico_engine.Ast.{
  Nodes, nil, cons, absent, null, identifier, function, parameters, declaration, DocTag, param,
  DocComment, Ruleset,
}
use pico_engine.Derive.Globals.{
  global_by_name_from, globals_from, add_global, resolve_global_function, resolve_loop, follow,
  follow_right,
}
use pico_engine.Schema.Docs.{
  meta_rid_version, meta_description, first_value, or_draft, literal, doc_returns, doc_examples,
}
use pico_engine.Schema.Queries.{
  Query, ok, queries_of, if_documented, put_query, query_of, query_with, doc_of, doc_query_args,
  param_tags, args_of, function_params, params_from,
}
use pico_engine.Schema.Build.{
  RulesetSchema, operations_of, ruleset_operations, schema_with, schema_or_null,
  build_ruleset_schema,
}
use pico_engine.Schema.Build.Listing.{
  rule_of, name_of, annotated, documented, build_ruleset_schema-lists,
}
use pico_engine.Schema.Build.Failing.{Fails, Faulty, build_ruleset_schema-Fails}
use pico_engine.Samples.{rule_named, rule_with}

abbrev note : String → List DocTag → DocComment
note text tags = record { description = text; tags = tags; unknown_tags = [] }

-- `hello = function() { null }`, with a doc comment.
abbrev hello_block : List DocTag → Nodes
hello_block tags =
    cons
      (declaration (identifier "hello") (function (parameters nil) nil null)
        (some (note "greets" tags)))
      nil

abbrev greeting : List DocTag → Ruleset
greeting tags = record {
  rid = "greeting";
  version = absent;
  meta = [];
  global = hello_block tags;
  rules = rule_with "answer" (some (note "answers" [])) ∷ rule_named "silent" ∷ [];
}

abbrev hello_query : Query
hello_query = record {
  name = "hello";
  description = "greets";
  args = [];
  returns_type = "Any";
  examples = [];
}

abbrev greeting_schema : RulesetSchema
greeting_schema = record {
  rid = "greeting";
  rid_version = "draft";
  description = none;
  operations = ruleset_operations (greeting []) ("hello" ∷ []);
  queries = hello_query ∷ [];
}

greeting_built : build_ruleset_schema (greeting []) ("hello" ∷ []) ≡ ok (some greeting_schema)
unfolding build_ruleset_schema ruleset_operations operations_of schema_with schema_or_null
    queries_of if_documented put_query query_of query_with doc_of doc_query_args param_tags args_of
    function_params params_from global_by_name_from globals_from add_global resolve_global_function
    resolve_loop follow follow_right lookup insert marked has meta_rid_version meta_description
    first_value or_draft literal doc_returns doc_examples is_proto
greeting_built = refl

build_ruleset_schema-lists_example :
    (map rule_of greeting_schema.operations ≡ annotated (greeting []).rules)
    × (map name_of greeting_schema.queries
        ≡ documented (global_by_name_from (greeting []).global) ("hello" ∷ []))
build_ruleset_schema-lists_example =
    build_ruleset_schema-lists (greeting []) ("hello" ∷ []) greeting_schema greeting_built

abbrev stray : Ruleset
stray = greeting (param "whom" none none ∷ [])

build_ruleset_schema-Fails_example :
    Fails (build_ruleset_schema stray ("hello" ∷ []))
    ↔ ((name : String) × In name ("hello" ∷ []) × Faulty (global_by_name_from stray.global) name)
build_ruleset_schema-Fails_example = build_ruleset_schema-Fails stray ("hello" ∷ [])
