-- ===== src/Parser/Termination/Calls.antt =====
-- krl-parser/src/krl.ts: the functions of the parser end with a fuel.
use pico_engine.Base.{ℕ, ◌+◌, ◌*◌, ◌≤◌, String, Option}
use pico_engine.Ast.{Node}
use pico_engine.Lexer.State.{Token}
use pico_engine.Parser.Rules.{Nud, Led}
use pico_engine.Parser.State.{State}
use pico_engine.Parser.Expressions.{
  expression, operators, run_nud, run_led, array_items, map_items, map_rest, argument_list,
  argument_rest, parameter_list, parameter_rest, declaration_list, declaration_of, chevron_parts,
}
use pico_engine.Parser.Settled.{size, Ends}

-- With the fuel `f` the functions end that have four nested calls for each token, and a few more.
pub record Ending (parse_float : String → String) (regexp_error : String × String → Option String)
    (f : ℕ) : Type 0 where
  pub expression_ends :
      (k : ℕ) (m : String) (c : State)
      → 4 * size c + 1 ≤ f
      → Ends 1 (size c) (expression parse_float regexp_error f k m c)
  pub operators_ends :
      (k : ℕ) (left : Node) (c : State)
      → 4 * size c + 1 ≤ f
      → Ends 0 (size c) (operators parse_float regexp_error f k left c)
  pub run_nud_ends :
      (n : Nud) (t : Token) (c : State)
      → 4 * size c + 3 ≤ f
      → Ends 0 (size c) (run_nud parse_float regexp_error f n t c)
  pub run_led_ends :
      (l : Led) (t : Token) (left : Node) (c : State)
      → 4 * size c + 3 ≤ f
      → Ends 0 (size c) (run_led parse_float regexp_error f l t left c)
  pub array_items_ends :
      (c : State) → 4 * size c + 2 ≤ f → Ends 0 (size c) (array_items parse_float regexp_error f c)
  pub map_items_ends :
      (c : State) → 4 * size c + 2 ≤ f → Ends 0 (size c) (map_items parse_float regexp_error f c)
  pub map_rest_ends :
      (key : Option String) (v : Node) (c : State)
      → 4 * size c + 3 ≤ f
      → Ends 0 (size c) (map_rest parse_float regexp_error f key v c)
  pub argument_list_ends :
      (c : State)
      → 4 * size c + 2 ≤ f
      → Ends 0 (size c) (argument_list parse_float regexp_error f c)
  pub argument_rest_ends :
      (a : Node) (c : State)
      → 4 * size c + 3 ≤ f
      → Ends 0 (size c) (argument_rest parse_float regexp_error f a c)
  pub parameter_list_ends :
      (c : State)
      → 4 * size c + 2 ≤ f
      → Ends 0 (size c) (parameter_list parse_float regexp_error f c)
  pub parameter_rest_ends :
      (p : Node) (c : State)
      → 4 * size c + 3 ≤ f
      → Ends 0 (size c) (parameter_rest parse_float regexp_error f p c)
  pub declaration_list_ends :
      (c : State)
      → 4 * size c + 2 ≤ f
      → Ends 0 (size c) (declaration_list parse_float regexp_error f c)
  pub declaration_of_ends :
      (c : State)
      → 4 * size c + 1 ≤ f
      → Ends 1 (size c) (declaration_of parse_float regexp_error f c)
  pub chevron_parts_ends :
      (c : State)
      → 4 * size c + 2 ≤ f
      → Ends 0 (size c) (chevron_parts parse_float regexp_error f c)
