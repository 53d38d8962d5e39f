-- ===== src/Parser/Termination.antt =====
-- krl-parser/src/krl.ts: the expression parser ends.
mod Calls
mod Terms
mod Openers
mod Items
mod Declared
use pico_engine.Base.{
  ℕ, zero, suc, ◌+◌, ◌*◌, ◌≤◌, String, Bool, true, false, ◌==◌, ◌&&◌, ◌||◌, ◌≡◌, ◌≢◌, refl, List,
  [], ◌∷◌, Option, none, some, length, arith, has,
}
use pico_engine.Ast.{Node, Nodes}
use pico_engine.Lexer.State.{
  TokenType, Token, raw, symbol, chevron_string, chevron_beesting_open, chevron_beesting_close,
  chevron_close,
}
use pico_engine.Lexer.State as Kind
use pico_engine.Parser.Rules.{
  Nud, map_nud, brackets_nud, array_nud, function_nud, def_action_nud, null_nud, symbol_nud,
  number_nud, string_nud, chevron_nud, regexp_nud, boolean_nud, prefix_nud, Led, dot_led, path_led,
  application_led, index_led, conditional_led, infix_led, reserved_words,
}
use pico_engine.Parser.State.{
  State, Outcome, done, out_of_fuel, advance_base, advance, next_token, is_at, is_end, same_type,
}
use pico_engine.Parser.Chomps.{
  chomp, chomp_maybe, is_identifier, chomp_identifier, after_colon,
  chomp_identifier_or_domain_identifier,
}
use pico_engine.Parser.Values.{string_of, regexp_of}
use pico_engine.Parser.Expressions.{
  binds_tighter, expected, expression, operators, run_nud, run_led, array_items, map_items,
  map_rest, argument_list, argument_rest, parameter_list, parameter_rest, declaration_list,
  declaration_of, chevron_parts, parse_expression, is_name, is_assignment, end_of_declarations,
  regexp_literal, parse_within,
}
use pico_engine.Parser.Settled.{
  size, Ends, bind-Ends, or_failed-Ends, done-Ends, failed-Ends, left_out-Ends, wider, branch-Ends,
  consed-Ends, rest-size, size-nud, size-tighter, size-type, advance_base-Ends, advance-Ends,
  next_token-Ends, chomp-Ends, chomp_maybe-Ends, chomp_identifier-Ends, after_colon-Ends,
  property-Ends, Ends-fuel,
}
use pico_engine.Parser.Termination.Calls.{Ending}
use pico_engine.Parser.Termination.Terms.{expression-Ends, operators-Ends, run_led-Ends}
use pico_engine.Parser.Termination.Openers.{run_nud-Ends}
use pico_engine.Parser.Termination.Items.{
  array_items-Ends, map_items-Ends, map_rest-Ends, argument_list-Ends, argument_rest-Ends,
  chevron_parts-Ends,
}
use pico_engine.Parser.Termination.Declared.{
  parameter_list-Ends, parameter_rest-Ends, declaration_list-Ends, declaration_of-Ends,
}

module _ (parse_float : String → String) (regexp_error : String × String → Option String) where
  all_end : (f : ℕ) → Ending parse_float regexp_error f
  all_end zero = record {
    expression_ends = λ k m c h. absurd (omega arith);
    operators_ends = λ k left c h. absurd (omega arith);
    run_nud_ends = λ n t c h. absurd (omega arith);
    run_led_ends = λ l t left c h. absurd (omega arith);
    array_items_ends = λ c h. absurd (omega arith);
    map_items_ends = λ c h. absurd (omega arith);
    map_rest_ends = λ key v c h. absurd (omega arith);
    argument_list_ends = λ c h. absurd (omega arith);
    argument_rest_ends = λ a c h. absurd (omega arith);
    parameter_list_ends = λ c h. absurd (omega arith);
    parameter_rest_ends = λ p c h. absurd (omega arith);
    declaration_list_ends = λ c h. absurd (omega arith);
    declaration_of_ends = λ c h. absurd (omega arith);
    chevron_parts_ends = λ c h. absurd (omega arith);
  }
  all_end (suc f) = record {
    expression_ends = expression-Ends parse_float regexp_error f (all_end f);
    operators_ends = operators-Ends parse_float regexp_error f (all_end f);
    run_nud_ends = run_nud-Ends parse_float regexp_error f (all_end f);
    run_led_ends = run_led-Ends parse_float regexp_error f (all_end f);
    array_items_ends = array_items-Ends parse_float regexp_error f (all_end f);
    map_items_ends = map_items-Ends parse_float regexp_error f (all_end f);
    map_rest_ends = map_rest-Ends parse_float regexp_error f (all_end f);
    argument_list_ends = argument_list-Ends parse_float regexp_error f (all_end f);
    argument_rest_ends = argument_rest-Ends parse_float regexp_error f (all_end f);
    parameter_list_ends = parameter_list-Ends parse_float regexp_error f (all_end f);
    parameter_rest_ends = parameter_rest-Ends parse_float regexp_error f (all_end f);
    declaration_list_ends = declaration_list-Ends parse_float regexp_error f (all_end f);
    declaration_of_ends = declaration_of-Ends parse_float regexp_error f (all_end f);
    chevron_parts_ends = chevron_parts-Ends parse_float regexp_error f (all_end f);
  }

  parse_within-ends :
      (f : ℕ) (tokens : List Token)
      → 4 * length tokens + 1 ≤ f
      → parse_within parse_float regexp_error f tokens ≢ out_of_fuel
  unfolding parse_within
  parse_within-ends f [] h = Ends-fuel _ (failed-Ends {k = 0} {n = 0} _)
  parse_within-ends f (t ∷ ts) h = Ends-fuel _ (
      bind-Ends {k = 0} {n = length (t ∷ ts)} (advance_base none (t ∷ ts)) _
        (advance_base-Ends none (t ∷ ts))
        (λ _ c a.
          bind-Ends (expression parse_float regexp_error f 0 expected c) _
            ((all_end f).expression_ends 0 expected c (omega arith))
            (λ e d b.
              branch-Ends (d.rule.id == "(end)") _ _ (λ _. done-Ends e d (omega arith))
                (λ _. failed-Ends _))))

  -- However the tokens stand, the expression parser does not use up a fuel of four nested calls for
  -- each token and one more, and so never the eight calls for each that parseExpression is given:
  -- it comes to a node or an error, or to a `defaction` or a map key that goes on behind its
  -- string, where the outcome is `left_out`.
  pub parse_expression-ends :
      (f : ℕ) (tokens : List Token)
      → 4 * length tokens + 1 ≤ f
      → (parse_within parse_float regexp_error f tokens ≢ out_of_fuel)
        × (parse_expression parse_float regexp_error tokens ≢ out_of_fuel)
  unfolding parse_expression parse_within
  parse_expression-ends f [] h =
      (parse_within-ends f [] h, Ends-fuel _ (failed-Ends {k = 0} {n = 0} _))
  parse_expression-ends f (t ∷ ts) h = (
    parse_within-ends f (t ∷ ts) h,
    parse_within-ends (8 * length (t ∷ ts)) (t ∷ ts) (omega arith),
  )
