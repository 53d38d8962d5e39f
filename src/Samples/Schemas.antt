-- ===== src/Samples/Schemas.antt =====
-- The theorems on the schema, at the sample ruleset.
use pico_engine.Base.{
  ℕ, ◌≤◌, ◌==◌, ◌≡◌, ◌≢◌, ◌↔◌, refl, true, false, List, [], ◌∷◌, map, none, some, has, In, is_proto,
}
use pico_engine.Ast.{Node, nil, cons, identifier, block, to_list, param, DocTag}
use pico_engine.Derive.Globals.{found, no_fuel, resolve_global_function, global_by_name_from}
use pico_engine.Derive.Globals.Termination.{resolve_global_function-ends}
use pico_engine.Derive.Globals.Aliases.{Alias, resolve_global_function-Alias}
use pico_engine.Derive.Where.{const, constraints_from_where}
use pico_engine.Derive.Where.Conjuncts.{Demands, constraints_from_where-Demands}
use pico_engine.Derive.Entries.{Attr, entry_from_event_expression, entries_from_select}
use pico_engine.Derive.Entries.Leaves.{Lists, Alternative, entry_from_event_expression-Alternative}
use pico_engine.Derive.Reads.{derived_attr_names_from_rule, rule_nodes}
use pico_engine.Derive.Reads.Names.{Visited, ReadBy, derived_attr_names-ReadBy}
use pico_engine.Derive.Attrs.{merge_attrs}
use pico_engine.Derive.Attrs.Merging.{find_named, kept, merge_attrs-kept}
use pico_engine.Emits.Statements.{When, Emit, on_condition, walk_postlude_stmts}
use pico_engine.Emits.Statements.Guards.{Makes, walk_postlude_stmts-Makes}
use pico_engine.Emits.Prechecks.{trace_to_event_attr, build_pre_bindings}
use pico_engine.Emits.Prechecks.Chains.{Chain, trace_to_event_attr-Chain}
use pico_engine.Emits.Conditions.{function_of, prechecks_from_condition}
use pico_engine.Emits.Conditions.Terms.{Calls}
use pico_engine.Emits.Conditions.Calls.{prechecks-Calls}
use pico_engine.Schema.Index.{also_selected_by, entry_index}
use pico_engine.Schema.Index.Peers.{rule_of, SharesKey, also_selected_by-SharesKey}
use pico_engine.Schema.Queries.{params_from, function_params, names_of}
use pico_engine.Schema.Queries.Args.{tags_known}
use pico_engine.Samples.{
  greeter, global_block, global_names, kind_clause, echo_either, full_condition, prelude,
  guarded_raise, rule_named, rules, greeter_tags,
}

resolve_global_function-Alias_example :
    (resolve_global_function global_names "greet" ≡ found greeter)
    ↔ ((h : ℕ) × Alias global_names h "greet" greeter)
resolve_global_function-Alias_example = resolve_global_function-Alias global_names "greet" greeter

resolve_global_function-ends_example : resolve_global_function global_names "a" ≢ no_fuel
resolve_global_function-ends_example = resolve_global_function-ends global_names "a"

also_selected_by-SharesKey_example :
    (has "record_it" (
        map rule_of (
          also_selected_by
            (entry_index rules)
            "answer"
            (entries_from_select (rule_named "answer").select)))
      ≡ true)
    ↔ ((("record_it" == "answer") ≡ false)
        × SharesKey rules (entries_from_select (rule_named "answer").select) "record_it")
also_selected_by-SharesKey_example =
    also_selected_by-SharesKey rules "answer" (entries_from_select (rule_named "answer").select)
      "record_it"

prechecks-Calls_example :
    (has "isFull" (
        map function_of
          (prechecks_from_condition full_condition ("isFull" ∷ "greet" ∷ []) prelude []))
      ≡ true)
    ↔ ((has "isFull" ("isFull" ∷ "greet" ∷ []) ≡ true)
        × (is_proto "isFull" ≡ false)
        × (args : Node) × Calls "isFull" args full_condition)
prechecks-Calls_example =
    prechecks-Calls "isFull" full_condition ("isFull" ∷ "greet" ∷ []) prelude []

abbrev full_emit : List When → Emit
full_emit w = Emit.signal "raise" (some "echo") (some "full") none w

walk_postlude_stmts-Makes_example :
    In
      (full_emit (on_condition "bin" ∷ []))
      (walk_postlude_stmts [] (block (cons guarded_raise nil)))
    ↔ ((s : Node) × In s (to_list (cons guarded_raise nil))
        × Makes (full_emit (on_condition "bin" ∷ [])) [] s)
walk_postlude_stmts-Makes_example =
    walk_postlude_stmts-Makes (full_emit (on_condition "bin" ∷ [])) [] (cons guarded_raise nil)

derived_attr_names-ReadBy_example :
    (has "bin" (derived_attr_names_from_rule (rule_named "answer") global_block) ≡ true) ↔ (
      (x : Node) × Visited x (rule_nodes (rule_named "answer"))
      × ReadBy (global_by_name_from global_block) "bin" x)
derived_attr_names-ReadBy_example =
    derived_attr_names-ReadBy (rule_named "answer") global_block "bin"

abbrev doc_attr : Attr
doc_attr = record {
  name = "bin";
  kind = "String";
  required = true;
  description = some "the bin";
  pattern = none;
}

merge_attrs-kept_example :
    find_named "bin" (merge_attrs (doc_attr ∷ []) ("bin" ∷ "kind" ∷ []) [])
    ≡ kept "bin" (doc_attr ∷ []) ("bin" ∷ "kind" ∷ []) []
merge_attrs-kept_example = merge_attrs-kept "bin" (doc_attr ∷ []) ("bin" ∷ "kind" ∷ []) []

entry_from_event_expression-Alternative_example :
    Lists "echo" "hi" [] (entry_from_event_expression echo_either)
    ↔ Alternative "echo" "hi" [] echo_either
entry_from_event_expression-Alternative_example =
    entry_from_event_expression-Alternative "echo" "hi" [] echo_either

constraints_from_where-Demands_example :
    In (const "kind" "short") (constraints_from_where kind_clause)
    ↔ Demands kind_clause "kind" "short"
constraints_from_where-Demands_example = constraints_from_where-Demands kind_clause "kind" "short"

trace_to_event_attr-Chain_example :
    (trace_to_event_attr (build_pre_bindings prelude) (identifier "bin") ≡ some "bin")
    ↔ ((h : ℕ) × (h ≤ 12) × Chain (build_pre_bindings prelude) "bin" h (identifier "bin"))
trace_to_event_attr-Chain_example =
    trace_to_event_attr-Chain (build_pre_bindings prelude) "bin" (identifier "bin")

who_known : tags_known (names_of (function_params greeter)) greeter_tags ≡ true
unfolding function_params params_from has
who_known = refl

abbrev stray_tags : List DocTag
stray_tags = param "whom" none none ∷ []

whom_unknown : tags_known (names_of (function_params greeter)) stray_tags ≡ false
unfolding function_params params_from has
whom_unknown = refl
