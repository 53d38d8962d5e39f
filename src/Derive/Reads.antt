-- ===== src/Derive/Reads.antt =====
-- deriveSchema.js, `isEventAttrsExpr`, `eventAttrsMemberName` and `derivedAttrNamesFromRule`:
-- the event attributes that a rule reads, itself or in a function of the `global` block that it
-- calls by name.
pub mod Names
use pico_engine.Base.{
  String, Bool, true, false, not, ◌==◌, ◌&&◌, if◌then◌else◌, List, [], ◌∷◌, ◌++◌, Option, none,
  some, truthy, of_option, has, keys, is_proto, add_keys,
}
use pico_engine.Ast.{
  Node, Nodes, application, domain_identifier, identifier, member, rule_for_each, string_value,
  first_arg, walk, walk_nodes, Rule,
}
use pico_engine.Derive.Globals.{
  Globals, Resolved, found, missing, no_fuel, global_by_name_from, resolve_global_function,
}
use pico_engine.Derive.Where.{event_attr_name}

unfoldable pub is_event_attrs_expr : Node → Bool
is_event_attrs_expr (domain_identifier domain value) = domain == "event" && value == "attrs"
is_event_attrs_expr _ = false

unfoldable pub event_attrs_member_name : Node → Option String
unfolding is_event_attrs_expr string_value
event_attrs_member_name (member object method property) =
    if is_event_attrs_expr object then string_value property else none
event_attrs_member_name _ = none

-- `recordAttrReads`: the name that it adds, if any. `if (n)` drops the empty name.
unfoldable pub record_attr_reads : Node → List String
record_attr_reads (application callee args) =
    of_option (truthy (event_attr_name (application callee args)))
record_attr_reads (member object method property) =
    of_option (truthy (event_attrs_member_name (member object method property)))
record_attr_reads _ = []

-- The names that a called function adds; `expand` is empty inside a global function.
unfoldable pub call_reads : (String → List String) → Node → List String
call_reads expand (application (identifier f) args) = expand f
call_reads expand _ = []

-- The visits of nodes that are no `RuleForEach`, in order.
unfoldable pub expression_reads : (String → List String) → List Node → List String
unfolding record_attr_reads call_reads
expression_reads expand [] = []
expression_reads expand (n ∷ ns) =
    record_attr_reads n ++ (call_reads expand n ++ expression_reads expand ns)

-- The expression of a `foreach` is visited once more, before the other visits of the node.
unfoldable pub foreach_reads : (String → List String) → Node → List String
unfolding record_attr_reads expression_reads
foreach_reads expand (rule_for_each expression setting) =
    record_attr_reads expression ++ expression_reads expand (walk expression)
foreach_reads expand _ = []

unfoldable pub walk_with_global_calls : (String → List String) → List Node → List String
unfolding record_attr_reads call_reads foreach_reads
walk_with_global_calls expand [] = []
walk_with_global_calls expand (n ∷ ns) =
    record_attr_reads n
    ++ (foreach_reads expand n ++ (call_reads expand n ++ walk_with_global_calls expand ns))

-- Inside a global function no further call is followed.
unfoldable pub function_reads : Resolved → List String
unfolding walk_with_global_calls
function_reads (found fn) = walk_with_global_calls (λ f. []) (walk fn)
function_reads missing = []
function_reads no_fuel = []

-- `globalByName[fnName] && !callStack[fnName]`: on the top level the stack is empty, and its
-- inherited names are truthy.
unfoldable pub expand_call : Globals → String → List String
unfolding function_reads
expand_call m f =
    if has f (keys m) && not (is_proto f) then function_reads (resolve_global_function m f) else []

unfoldable pub rule_nodes : Rule → List Node
rule_nodes r =
    walk_nodes r.prelude ++ (walk_nodes r.foreach ++ (walk r.action_block ++ walk r.postlude))

unfoldable pub derived_attr_names_from_rule : Rule → Nodes → List String
unfolding walk_with_global_calls expand_call rule_nodes add_keys global_by_name_from
derived_attr_names_from_rule r global =
    add_keys (walk_with_global_calls (expand_call (global_by_name_from global)) (rule_nodes r)) []
