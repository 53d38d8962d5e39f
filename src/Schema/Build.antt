-- ===== src/Schema/Build.antt =====
-- rulesetSchema.js, `buildRulesetSchema`: the whole schema.
pub mod Listing
pub mod Failing
use pico_engine.Base.{String, if◌then◌else◌, List, [], ◌∷◌, ◌++◌, Option, none, some}
use pico_engine.Ast.{Node, absent, action_block, DocComment, Rule, Ruleset, Nodes}
use pico_engine.Derive.Globals.{global_by_name_from}
use pico_engine.Derive.Reads.{derived_attr_names_from_rule}
use pico_engine.Derive.Entries.{Attr, Entry, entries_from_select}
use pico_engine.Derive.Attrs.{merge_attrs}
use pico_engine.Emits.Statements.{Emit}
use pico_engine.Emits.Rules.{derive_emits_from_rule}
use pico_engine.Emits.Prechecks.{Params, shared_function_params}
use pico_engine.Emits.Conditions.{Precheck, prechecks_from_condition}
use pico_engine.Schema.Docs.{Example, doc_attrs, doc_examples, meta_description, meta_rid_version}
use pico_engine.Schema.Queries.{Result, ok, err, Query, queries_of}
use pico_engine.Schema.Index.{
  Peer, EntryIndex, entry_index, select_text, condition_text, also_selected_by,
}

-- An operation; an entry is printed without its derived attributes.
pub record Operation : Type 0 where
  pub rule : String
  pub description : String
  pub entry : List Entry
  pub select_text : Option String
  pub condition_text : Option String
  pub prechecks : List Precheck
  pub attrs : List Attr
  pub emits : List Emit
  pub also_selected_by : List Peer
  pub examples : List Example

unfoldable pub derived_of : List Entry → List Attr
derived_of [] = []
derived_of (e ∷ es) = e.derived_attrs ++ derived_of es

unfoldable pub rule_prechecks : Node → List String → Nodes → Params → List Precheck
rule_prechecks (action_block absent bt d acts) shares prelude params = []
rule_prechecks (action_block c bt d acts) shares prelude params =
    prechecks_from_condition c shares prelude params
rule_prechecks _ shares prelude params = []

-- The operation of an active rule with a doc comment, its `alsoSelectedBy` filled in.
unfoldable pub operation_of :
    EntryIndex → Nodes → List String → Params → Rule → DocComment → Operation
unfolding derived_of rule_prechecks
operation_of index global shares params r doc =
    let entries = entries_from_select r.select in
    record {
      rule = r.name;
      description = doc.description;
      entry = entries;
      select_text = select_text r.select;
      condition_text = condition_text r.action_block;
      prechecks = rule_prechecks r.action_block shares r.prelude params;
      attrs =
          merge_attrs (doc_attrs doc.tags) (derived_attr_names_from_rule r global)
            (derived_of entries);
      emits = derive_emits_from_rule r;
      also_selected_by = also_selected_by index r.name entries;
      examples = doc_examples doc.tags;
    }

unfoldable pub operations_of :
    EntryIndex → Nodes → List String → Params → List Rule → List Operation
unfolding operation_of
operations_of index global shares params [] = []
operations_of index global shares params (r ∷ rs) =
    let rest = operations_of index global shares params rs in
    elim r.doc [
      | none ↦ rest
      | some doc ↦ if r.active then operation_of index global shares params r doc ∷ rest else rest
    ]

pub record RulesetSchema : Type 0 where
  pub rid : String
  pub rid_version : String
  pub description : Option String
  pub operations : List Operation
  pub queries : List Query

-- `null` where nothing is annotated.
unfoldable pub schema_or_null : Ruleset → List Operation → List Query → Option RulesetSchema
schema_or_null ast [] [] = none
schema_or_null ast operations queries = some (record {
  rid = ast.rid;
  rid_version = meta_rid_version ast.meta ast.version;
  description = meta_description ast.meta;
  operations = operations;
  queries = queries;
})

unfoldable pub schema_with :
    Ruleset → List Operation → Result (List Query) → Result (Option RulesetSchema)
unfolding schema_or_null
schema_with ast operations (err e) = err e
schema_with ast operations (ok queries) = ok (schema_or_null ast operations queries)

unfoldable pub ruleset_operations : Ruleset → List String → List Operation
unfolding operations_of
ruleset_operations ast shares =
    operations_of (entry_index ast.rules) ast.global shares
      (shared_function_params ast.global shares) ast.rules

unfoldable pub build_ruleset_schema : Ruleset → List String → Result (Option RulesetSchema)
unfolding ruleset_operations schema_with
build_ruleset_schema ast shares =
    schema_with ast (ruleset_operations ast shares)
      (queries_of (global_by_name_from ast.global) shares)
