-- ===== src/Emits/Prechecks.antt =====
-- deriveEmits.js, `sharedFunctionParams`, `buildPreBindings` and `traceToEventAttr`: what the
-- entries for prechecks rest on.
pub mod Chains
use Prim.Native.Nat.{compare, Ordering, ◌/◌, ◌%◌}
use Prim.Native.String.{◌++◌ as ◌<>◌}
use pico_engine.Base.{
  ℕ, zero, suc, ◌+◌, String, Bool, true, false, ◌==◌, ◌&&◌, ◌||◌, if◌then◌else◌, List, [], ◌∷◌,
  ◌++◌, Option, none, some, truthy, or_else, has, marked, lookup, insert, length, map,
}
use pico_engine.Ast.{
  Node, Nodes, nil, cons, absent, string, identifier, domain_identifier, function, parameters,
  parameter, application, arguments, declaration, infix_operator, unary_operator, to_list,
}
use pico_engine.Derive.Globals.{
  Globals, Resolved, found, missing, no_fuel, global_by_name_from, resolve_global_function,
}
use pico_engine.Derive.Entries.{gen_text}
use pico_engine.Emits.Rules.{reply_to_from_expr}

unfoldable pub param_names : Nodes → List String
param_names nil = []
param_names (cons (parameter id d) ps) = id ∷ param_names ps
param_names (cons _ ps) = param_names ps

unfoldable pub function_params : Node → List String
unfolding param_names
function_params (function (parameters ps) body ret) = param_names ps
function_params _ = []

unfoldable pub resolved_params : Resolved → List String
unfolding function_params
resolved_params (found fn) = function_params fn
resolved_params missing = []
resolved_params no_fuel = []

abbrev pub Params : Type 0
Params = List (String × List String)

-- A declaration's name, where `shares` lists it.
unfoldable pub shared_name : List String → Node → Option String
shared_name shares (declaration (identifier n) right doc) =
    if n == "" then none else if has n shares then some n else none
shared_name shares _ = none

unfoldable pub shared_params_loop : Globals → List String → Nodes → Params → Params
unfolding shared_name resolved_params
shared_params_loop m shares nil acc = acc
shared_params_loop m shares (cons dec decs) acc =
    shared_params_loop m shares decs (elim (shared_name shares dec) [
      | none ↦ acc
      | some n ↦ insert n (resolved_params (resolve_global_function m n)) acc
    ])

unfoldable pub shared_function_params : Nodes → List String → Params
unfolding shared_params_loop
shared_function_params global shares =
    shared_params_loop (global_by_name_from global) shares global []

abbrev pub Bindings : Type 0
Bindings = List (String × Node)

unfoldable pub pre_bindings_from : Nodes → Bindings → Bindings
pre_bindings_from nil m = m
pre_bindings_from (cons (declaration (identifier n) right doc) ds) m =
    pre_bindings_from ds (insert n right m)
pre_bindings_from (cons _ ds) m = pre_bindings_from ds m

unfoldable pub build_pre_bindings : Nodes → Bindings
unfolding pre_bindings_from
build_pre_bindings prelude = pre_bindings_from prelude []

-- `expr.type === 'Identifier' && preBindings[expr.value]`
unfoldable pub binding_of : Bindings → Node → Option Node
binding_of pre (identifier n) = lookup n pre
binding_of pre _ = none

-- `levels` is 13 - depth: the calls with a depth above 12 return null.
unfoldable pub trace_levels : ℕ → Bindings → Node → Option String
unfolding binding_of
trace_levels zero pre e = none
trace_levels (suc levels) pre e =
    or_else (truthy (reply_to_from_expr e))
      (elim (binding_of pre e) [ none ↦ none | some bound ↦ trace_levels levels pre bound ])

unfoldable pub trace_to_event_attr : Bindings → Node → Option String
trace_to_event_attr pre e = trace_levels 13 pre e

digit : ℕ → String
digit n = elim (compare n 5) [
  | Ordering.lt ↦ elim (compare n 2) [
    | Ordering.lt ↦ elim (compare n 1) [ Ordering.lt ↦ "0" | _ ↦ "1" ]
    | Ordering.eq ↦ "2"
    | Ordering.gt ↦ elim (compare n 3) [ Ordering.gt ↦ "4" | _ ↦ "3" ]
  ]
  | Ordering.eq ↦ "5"
  | Ordering.gt ↦ elim (compare n 7) [
    | Ordering.lt ↦ "6"
    | Ordering.eq ↦ "7"
    | Ordering.gt ↦ elim (compare n 8) [ Ordering.gt ↦ "9" | _ ↦ "8" ]
  ]
]

-- The digits of a number; `n` rounds suffice.
decimal_from : ℕ → ℕ → String
unfolding digit
decimal_from zero n = digit n
decimal_from (suc rounds) n = elim (compare n 10) [
  | Ordering.lt ↦ digit n
  | _ ↦ decimal_from rounds (n / 10) <> digit (n % 10)
]

-- `String(i)` of an index.
unfoldable pub decimal : ℕ → String
unfolding decimal_from
decimal n = decimal_from n n
