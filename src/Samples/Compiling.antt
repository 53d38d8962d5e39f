-- ===== src/Samples/Compiling.antt =====
-- The theorems on what compiling records and refuses, at small inputs.
use pico_engine.Base.{
  String, some, marked, Option, refl, ◌++◌, ◌≡◌, ◌↔◌, true, false, List, [], ◌∷◌, none, All, has,
  IsNodup, is_proto,
}
use pico_engine.Ast.{
  Ruleset, Node, identifier, declaration, null, parameters, function, def_action, nil, cons, absent,
  number, parameter, Nodes,
}
use pico_engine.Schema.Queries.{ok, params_from, names_of}
use pico_engine.Compile.EventScope.{Call, selects, reads, or_empty, record_calls}
use pico_engine.Compile.EventScope.Order.{attrs_of, ReadAfter, record_calls-ReadAfter}
use pico_engine.Compile.Check.{Parsed, parsed_ruleset, Compiled, compiled, Thrown}
use pico_engine.Compile.Declarations.{declaration_block}
use pico_engine.Compile.Declarations.Passes.{noted, ignored, Fresh, those, declaration_block-those}
use pico_engine.Compile.Parameters.{parameters_error}
use pico_engine.Compile.Parameters.Order.{defaults_last, parameters_error-IsNodup}

abbrev two_params : Nodes
two_params = cons (parameter "who" absent) (cons (parameter "count" (number "1")) nil)

parameters_error-IsNodup_example : (parameters_error two_params ≡ none) ↔ (
    IsNodup (names_of (params_from two_params))
    × All (λ n. is_proto n ≡ false) (names_of (params_from two_params))
    × (defaults_last (params_from two_params) ≡ true))
parameters_error-IsNodup_example = parameters_error-IsNodup two_params

-- Rule `answer` reads `early` before the event `echo:hello` and `late` behind it.
abbrev answer_calls : List Call
answer_calls =
    reads "answer" "early"
    ∷ selects "answer" "echo" "hello"
    ∷ reads "record_it" "other"
    ∷ reads "answer" "late"
    ∷ []

record_calls-ReadAfter_example :
    (has "late" (or_empty (attrs_of "answer" "echo" "hello" (record_calls answer_calls []))) ≡ true)
    ↔ ReadAfter "answer" "echo" "hello" "late" answer_calls
record_calls-ReadAfter_example = record_calls-ReadAfter "answer" "echo" "hello" "late" answer_calls

-- `f = function() { null }`, `act = defaction() { null }` and `x = 1`.
abbrev three : Nodes
three = cons (declaration (identifier "f") (function (parameters nil) nil null) none) (
    cons (declaration (identifier "act") (def_action (parameters nil) nil absent null) none)
      (cons (declaration (identifier "x") (number "1") none) nil))

three-Fresh : Fresh [] three
unfolding marked has is_proto
three-Fresh = (refl, (refl, (refl, tt)))

declaration_block-those_example :
    (out : List (Option Node)) × (declaration_block noted ignored three []
      ≡ ok (out, those false three ++ those true three))
declaration_block-those_example = declaration_block-those three three-Fresh

abbrev empty_ruleset : Ruleset
empty_ruleset = record { rid = "empty"; version = absent; meta = []; global = nil; rules = [] }

abbrev parse_any : String → Parsed
parse_any src = parsed_ruleset empty_ruleset

abbrev old_version : Thrown
old_version = record { message = "deprecated"; line = some "1"; column = some "9" }

abbrev compile_any : Ruleset → Compiled
compile_any ast =
    compiled (record { rid = some ast.rid; schema = none; warnings = old_version ∷ [] })
