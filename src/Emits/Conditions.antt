-- ===== src/Emits/Conditions.antt =====
-- deriveEmits.js, `precheckEntryFromCall`, `collectBooleanTerms`, `sharedPrecheckCallInTerm` and
-- `prechecksFromCondition`: the shared functions that a rule's condition calls as its terms.
pub mod Terms
pub mod Calls
use Prim.Native.Nat.{compare, Ordering}
use pico_engine.Base.{
  ℕ, zero, suc, ◌+◌, String, Bool, true, false, ◌==◌, ◌&&◌, ◌||◌, if◌then◌else◌, List, [], ◌∷◌,
  ◌++◌, Option, none, some, has, marked, lookup, insert, length,
}
use pico_engine.Ast.{
  Node, Nodes, absent, identifier, application, arguments, infix_operator, unary_operator, to_list,
}
use pico_engine.Derive.Entries.{gen_text}
use pico_engine.Emits.Prechecks.{Params, Bindings, build_pre_bindings, trace_to_event_attr, decimal}

pub data Precheck : Type 0 where
  with_args : String → List (String × String) → Precheck
  with_call : String → String → Precheck

abbrev pub function_of : Precheck → String
function_of (with_args fn args) = fn
function_of (with_call fn text) = fn

-- `paramNames[i] || String(i)`, and the names behind index `i`.
unfoldable pub param_at : ℕ → List String → String
unfolding decimal
param_at i [] = decimal i
param_at i (p ∷ ps) = if p == "" then decimal i else p

abbrev pub behind : List String → List String
behind [] = []
behind (p ∷ ps) = ps

-- The loop over the arguments: `argsObj`, and the `allTraceable` of the arguments.
unfoldable pub trace_args :
    Bindings → ℕ → List String → List Node → List (String × String) → List (String × String)
unfolding param_at
trace_args pre i params [] obj = obj
trace_args pre i params (a ∷ as') obj =
    trace_args pre (i + 1) (behind params) as' (elim (trace_to_event_attr pre a) [
      | none ↦ obj
      | some attr ↦ insert (param_at i params) attr obj
    ])

unfoldable pub all_traceable : Bindings → List Node → Bool
all_traceable pre [] = true
all_traceable pre (a ∷ as') = elim (trace_to_event_attr pre a) [
  | none ↦ false
  | some attr ↦ all_traceable pre as'
]

unfoldable pub argument_list : Node → List Node
argument_list (arguments as') = to_list as'
argument_list _ = []

abbrev same_number : ℕ → ℕ → Bool
same_number a b = elim (compare a b) [ Ordering.eq ↦ true | _ ↦ false ]

-- `call` is the whole application, whose text stands in for arguments that cannot be traced.
unfoldable pub precheck_of_args : String → Node → List Node → List String → Bindings → Precheck
unfolding trace_args all_traceable
precheck_of_args fn call args params pre =
    let obj = trace_args pre 0 params args [] in
    if all_traceable pre args && same_number (length obj) (length args)
    then with_args fn obj
    else with_call fn (gen_text call)

unfoldable pub precheck_entry_from_call : String → Node → List String → Bindings → Precheck
unfolding argument_list precheck_of_args
precheck_entry_from_call fn args params pre = elim (argument_list args) [
  | [] ↦ with_args fn []
  | a ∷ as' ↦ precheck_of_args fn (application (identifier fn) args) (a ∷ as') params pre
]

-- A negation is tested for as `op === '!'` and its operand read as `expr.argument`. The parser
-- has neither: a node with the operator `!` would have no such operand, so no term.
unfoldable pub collect_boolean_terms : Node → List Node
collect_boolean_terms absent = []
collect_boolean_terms (infix_operator op l r) =
    let both = collect_boolean_terms l ++ collect_boolean_terms r in
    if op == "&&" || op == "||" then both else infix_operator op l r ∷ []
collect_boolean_terms (unary_operator op a) = if op == "!" then [] else unary_operator op a ∷ []
collect_boolean_terms n = n ∷ []

-- The name and the arguments of a call of a shared function.
unfoldable pub shared_precheck_call_in_term : Node → List String → Option (String × Node)
shared_precheck_call_in_term (application (identifier fn) args) shares =
    if has fn shares then some (fn, args) else none
shared_precheck_call_in_term _ shares = none

unfoldable pub params_of : String → Params → List String
params_of fn m = elim (lookup fn m) [ none ↦ [] | some ps ↦ ps ]

unfoldable pub precheck_term :
    Option (String × Node)
    → List String
    → Bindings
    → Params
    → (List String → List Precheck)
    → List Precheck
unfolding precheck_entry_from_call params_of
precheck_term none seen pre params rest = rest seen
precheck_term (some (fn, args)) seen pre params rest =
    if marked fn seen
    then rest seen
    else precheck_entry_from_call fn args (params_of fn params) pre ∷ rest (fn ∷ seen)

unfoldable pub precheck_terms :
    List Node → List String → Bindings → Params → List String → List Precheck
precheck_terms [] shares pre params seen = []
precheck_terms (t ∷ ts) shares pre params seen =
    precheck_term (shared_precheck_call_in_term t shares) seen pre params
      (λ s. precheck_terms ts shares pre params s)

unfoldable pub prechecks_from_condition : Node → List String → Nodes → Params → List Precheck
unfolding precheck_terms collect_boolean_terms
prechecks_from_condition condition shares prelude params =
    precheck_terms (collect_boolean_terms condition) shares (build_pre_bindings prelude) params []
