-- ===== src/Parser/Termination/Terms.antt =====
-- krl-parser/src/krl.ts: expressions and what goes on behind them end.
use pico_engine.Base.{ℕ, suc, ◌+◌, ◌*◌, ◌≤◌, String, Option, arith}
use pico_engine.Ast.{Node}
use pico_engine.Lexer.State.{Token, raw}
use pico_engine.Parser.Rules.{
  Led, dot_led, path_led, application_led, index_led, conditional_led, infix_led,
}
use pico_engine.Parser.State.{State, advance}
use pico_engine.Parser.Chomps.{chomp, chomp_identifier_or_domain_identifier}
use pico_engine.Parser.Expressions.{
  binds_tighter, expected, expression, operators, run_nud, run_led, argument_list,
}
use pico_engine.Parser.Settled.{
  size, Ends, bind-Ends, or_failed-Ends, done-Ends, wider, branch-Ends, size-nud, size-tighter,
  advance-Ends, chomp-Ends, property-Ends,
}
use pico_engine.Parser.Termination.Calls.{Ending}

module _ (parse_float : String → String) (regexp_error : String × String → Option String) (f : ℕ)
    (all : Ending parse_float regexp_error f) where
  pub expression-Ends :
      (k : ℕ) (m : String) (c : State)
      → 4 * size c + 1 ≤ suc f
      → Ends 1 (size c) (expression parse_float regexp_error (suc f) k m c)
  unfolding expression
  expression-Ends k m c h = or_failed-Ends c.rule.nud m _ (λ n e.
      bind-Ends (advance c) _ (advance-Ends c) (λ _ d a.
        bind-Ends (run_nud parse_float regexp_error f n c.token d) _
          (all.run_nud_ends n c.token d (omega (arith, size-nud c n e)))
          (λ left x b.
            wider _ (all.operators_ends k left x (omega (arith, size-nud c n e)))
              (omega (arith, size-nud c n e)))))

  pub operators-Ends :
      (k : ℕ) (left : Node) (c : State)
      → 4 * size c + 1 ≤ suc f
      → Ends 0 (size c) (operators parse_float regexp_error (suc f) k left c)
  unfolding operators
  operators-Ends k left c h =
      branch-Ends (binds_tighter k c.rule.lbp) _ _
        (λ e. bind-Ends (advance c) _ (advance-Ends c) (λ _ d a.
          or_failed-Ends c.rule.led _ _ (λ l _.
            bind-Ends (run_led parse_float regexp_error f l c.token left d) _
              (all.run_led_ends l c.token left d (omega (arith, size-tighter c k e)))
              (λ left' x b.
                wider _ (all.operators_ends k left' x (omega (arith, size-tighter c k e)))
                  (omega (arith, size-tighter c k e))))))
        (λ _. done-Ends left c (omega arith))

  pub run_led-Ends :
      (l : Led) (t : Token) (left : Node) (c : State)
      → 4 * size c + 3 ≤ suc f
      → Ends 0 (size c) (run_led parse_float regexp_error (suc f) l t left c)
  unfolding run_led
  run_led-Ends dot_led t left c h =
      bind-Ends (chomp_identifier_or_domain_identifier c) _ (property-Ends c)
        (λ property d a. done-Ends _ d (omega arith))
  run_led-Ends path_led t left c h =
      bind-Ends (expression parse_float regexp_error f 0 expected c) _
        (all.expression_ends 0 expected c (omega arith))
        (λ v d a.
          bind-Ends (chomp raw "}" d) _ (chomp-Ends raw "}" d)
            (λ _ e b. done-Ends _ e (omega arith)))
  run_led-Ends application_led t left c h =
      bind-Ends (argument_list parse_float regexp_error f c) _
        (all.argument_list_ends c (omega arith))
        (λ v d a.
          bind-Ends (chomp raw ")" d) _ (chomp-Ends raw ")" d)
            (λ _ e b. done-Ends _ e (omega arith)))
  run_led-Ends index_led t left c h =
      bind-Ends (expression parse_float regexp_error f 0 expected c) _
        (all.expression_ends 0 expected c (omega arith))
        (λ v d a.
          bind-Ends (chomp raw "]" d) _ (chomp-Ends raw "]" d)
            (λ _ e b. done-Ends _ e (omega arith)))
  run_led-Ends conditional_led t left c h =
      bind-Ends (expression parse_float regexp_error f 10 expected c) _
        (all.expression_ends 10 expected c (omega arith))
        (λ v d a. bind-Ends (chomp raw "|" d) _ (chomp-Ends raw "|" d) (λ _ e b.
          bind-Ends (expression parse_float regexp_error f 0 expected e) _
            (all.expression_ends 0 expected e (omega arith))
            (λ w g x. done-Ends _ g (omega arith))))
  run_led-Ends (infix_led op k) t left c h =
      bind-Ends (expression parse_float regexp_error f k expected c) _
        (all.expression_ends k expected c (omega arith)) (λ v d a. done-Ends _ d (omega arith))
