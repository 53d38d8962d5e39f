-- ===== src/Parser/Termination/Declared.antt =====
-- krl-parser/src/krl.ts: parameters and declarations end.
use pico_engine.Base.{ℕ, suc, ◌+◌, ◌*◌, ◌≤◌, String, ◌||◌, Option, none, some, arith}
use pico_engine.Ast.{Node}
use pico_engine.Lexer.State.{Token, raw}
use pico_engine.Parser.State.{State, advance, next_token, is_at, is_end}
use pico_engine.Parser.Chomps.{chomp_maybe, is_identifier, chomp_identifier}
use pico_engine.Parser.Expressions.{
  expected, expression, parameter_list, parameter_rest, declaration_list, declaration_of,
  is_assignment, end_of_declarations,
}
use pico_engine.Parser.Settled.{
  size, Ends, bind-Ends, done-Ends, failed-Ends, wider, branch-Ends, consed-Ends, rest-size,
  advance-Ends, next_token-Ends, chomp_maybe-Ends, chomp_identifier-Ends,
}
use pico_engine.Parser.Termination.Calls.{Ending}

end_of_declarations-Ends :
    (doc : Option Token) (c : State) → Ends 0 (size c) (end_of_declarations doc c)
end_of_declarations-Ends none c = done-Ends _ c (omega arith)
end_of_declarations-Ends (some t) c = failed-Ends _

module _ (parse_float : String → String) (regexp_error : String × String → Option String) (f : ℕ)
    (all : Ending parse_float regexp_error f) where
  pub parameter_list-Ends :
      (c : State)
      → 4 * size c + 2 ≤ suc f
      → Ends 0 (size c) (parameter_list parse_float regexp_error (suc f) c)
  unfolding parameter_list
  parameter_list-Ends c h =
      branch-Ends (is_end c || is_at raw ")" c) _ _ (λ _. done-Ends _ c (omega arith))
        (λ _. bind-Ends (chomp_identifier c) _ (chomp_identifier-Ends c) (λ name d x.
          branch-Ends (is_at raw "=" d) _ _
            (λ _. bind-Ends (advance d) _ (advance-Ends d) (λ _ e y.
              bind-Ends (expression parse_float regexp_error f 0 expected e) _
                (all.expression_ends 0 expected e (omega (arith, rest-size d)))
                (λ v g z.
                  wider _ (all.parameter_rest_ends _ g (omega (arith, rest-size d)))
                    (omega (arith, rest-size d)))))
            (λ _. wider _ (all.parameter_rest_ends _ d (omega arith)) (omega arith))))

  pub parameter_rest-Ends :
      (p : Node) (c : State)
      → 4 * size c + 3 ≤ suc f
      → Ends 0 (size c) (parameter_rest parse_float regexp_error (suc f) p c)
  unfolding parameter_rest
  parameter_rest-Ends p c h =
      branch-Ends (is_at raw "," c) _ _
        (λ _. bind-Ends (advance c) _ (advance-Ends c) (λ _ d x. consed-Ends p _ (
          wider _ (all.parameter_list_ends d (omega (arith, rest-size c)))
            (omega (arith, rest-size c)))))
        (λ _. done-Ends _ c (omega arith))

  pub declaration_list-Ends :
      (c : State)
      → 4 * size c + 2 ≤ suc f
      → Ends 0 (size c) (declaration_list parse_float regexp_error (suc f) c)
  unfolding declaration_list
  declaration_list-Ends c h =
      branch-Ends (is_end c) _ _ (λ _. done-Ends _ c (omega arith))
        (λ _.
          branch-Ends (is_identifier c) _ _
            (λ _. bind-Ends (next_token c.rest c) _ (next_token-Ends c.rest c) (λ next _ _.
              branch-Ends (is_assignment next) _ _
                (λ _.
                  bind-Ends (declaration_of parse_float regexp_error f c) _
                    (all.declaration_of_ends c (omega arith))
                    (λ n d x.
                      bind-Ends (chomp_maybe raw ";" d) _ (chomp_maybe-Ends raw ";" d) (λ _ e y.
                        consed-Ends n _
                          (wider _ (all.declaration_list_ends e (omega arith)) (omega arith)))))
                (λ _. end_of_declarations-Ends c.doc c)))
            (λ _. end_of_declarations-Ends c.doc c))

  pub declaration_of-Ends :
      (c : State)
      → 4 * size c + 1 ≤ suc f
      → Ends 1 (size c) (declaration_of parse_float regexp_error (suc f) c)
  unfolding declaration_of
  declaration_of-Ends c h =
      branch-Ends (is_identifier c) _ _
        (λ _. bind-Ends (chomp_identifier c) _ (chomp_identifier-Ends c) (λ name d x.
          branch-Ends (is_at raw "=" d) _ _
            (λ _. bind-Ends (advance d) _ (advance-Ends d) (λ _ e y.
              bind-Ends (expression parse_float regexp_error f 0 expected e) _
                (all.expression_ends 0 expected e (omega (arith, rest-size d)))
                (λ v g z. done-Ends _ g (omega (arith, rest-size d)))))
            (λ _. failed-Ends _)))
        (λ _. failed-Ends _)
