-- ===== src/Parser/Termination/Items.antt =====
-- krl-parser/src/krl.ts: the items of arrays, maps, arguments and chevrons end.
use pico_engine.Base.{
  ℕ, suc, ◌+◌, ◌*◌, ◌≤◌, String, ◌==◌, ◌&&◌, ◌||◌, refl, Option, none, some, arith,
}
use pico_engine.Ast.{Node}
use pico_engine.Lexer.State.{
  TokenType, Token, raw, symbol, chevron_string, chevron_beesting_open, chevron_beesting_close,
  chevron_close,
}
use pico_engine.Lexer.State as Kind
use pico_engine.Parser.State.{State, advance, is_at, is_end, same_type}
use pico_engine.Parser.Chomps.{chomp}
use pico_engine.Parser.Expressions.{
  expected, expression, array_items, map_items, map_rest, argument_list, argument_rest,
  chevron_parts, is_name,
}
use pico_engine.Parser.Settled.{
  size, Ends, bind-Ends, done-Ends, failed-Ends, left_out-Ends, wider, branch-Ends, consed-Ends,
  rest-size, size-type, advance-Ends, chomp-Ends,
}
use pico_engine.Parser.Termination.Calls.{Ending}

module _ (parse_float : String → String) (regexp_error : String × String → Option String) (f : ℕ)
    (all : Ending parse_float regexp_error f) where
  pub array_items-Ends :
      (c : State)
      → 4 * size c + 2 ≤ suc f
      → Ends 0 (size c) (array_items parse_float regexp_error (suc f) c)
  unfolding array_items
  array_items-Ends c h =
      branch-Ends (c.rule.id == "]") _ _ (λ _. done-Ends _ c (omega arith))
        (λ _.
          bind-Ends (expression parse_float regexp_error f 0 expected c) _
            (all.expression_ends 0 expected c (omega arith))
            (λ v d a.
              branch-Ends (d.rule.id == ",") _ _
                (λ _. bind-Ends (advance d) _ (advance-Ends d) (λ _ e b. consed-Ends v _ (
                  wider _ (all.array_items_ends e (omega (arith, rest-size d)))
                    (omega (arith, rest-size d)))))
                (λ _. done-Ends _ d (omega arith))))

  pub map_items-Ends :
      (c : State)
      → 4 * size c + 2 ≤ suc f
      → Ends 0 (size c) (map_items parse_float regexp_error (suc f) c)
  unfolding map_items
  map_items-Ends c h =
      branch-Ends (c.rule.id == "}") _ _ (λ _. done-Ends _ c (omega arith))
        (λ _.
          branch-Ends (same_type c.token.type Kind.string) _ _
            (λ _.
              bind-Ends (expression parse_float regexp_error f 0 expected c) _
                (all.expression_ends 0 expected c (omega arith))
                (λ key d a. bind-Ends (chomp raw ":" d) _ (chomp-Ends raw ":" d) (λ _ e b.
                  bind-Ends (expression parse_float regexp_error f 0 expected e) _
                    (all.expression_ends 0 expected e (omega arith))
                    (λ v g x. wider _ (all.map_rest_ends _ v g (omega arith)) (omega arith)))))
            (λ _. failed-Ends _))

  pub map_rest-Ends :
      (key : Option String) (v : Node) (c : State)
      → 4 * size c + 3 ≤ suc f
      → Ends 0 (size c) (map_rest parse_float regexp_error (suc f) key v c)
  unfolding map_rest
  map_rest-Ends none v c h = left_out-Ends
  map_rest-Ends (some key) v c h =
      branch-Ends (c.rule.id == ",") _ _
        (λ _. bind-Ends (advance c) _ (advance-Ends c) (λ _ d a. consed-Ends _ _ (
          wider _ (all.map_items_ends d (omega (arith, rest-size c)))
            (omega (arith, rest-size c)))))
        (λ _. done-Ends _ c (omega arith))

  pub argument_list-Ends :
      (c : State)
      → 4 * size c + 2 ≤ suc f
      → Ends 0 (size c) (argument_list parse_float regexp_error (suc f) c)
  unfolding argument_list
  argument_list-Ends c h =
      branch-Ends (is_end c || is_at raw ")" c) _ _ (λ _. done-Ends _ c (omega arith))
        (λ _.
          bind-Ends (expression parse_float regexp_error f 0 expected c) _
            (all.expression_ends 0 expected c (omega arith))
            (λ a d x.
              branch-Ends (is_name a && is_at raw "=" d) _ _
                (λ _. bind-Ends (advance d) _ (advance-Ends d) (λ _ e y.
                  bind-Ends (expression parse_float regexp_error f 0 expected e) _
                    (all.expression_ends 0 expected e (omega (arith, rest-size d)))
                    (λ v g z.
                      wider _ (all.argument_rest_ends _ g (omega (arith, rest-size d)))
                        (omega (arith, rest-size d)))))
                (λ _. wider _ (all.argument_rest_ends a d (omega arith)) (omega arith))))

  pub argument_rest-Ends :
      (a : Node) (c : State)
      → 4 * size c + 3 ≤ suc f
      → Ends 0 (size c) (argument_rest parse_float regexp_error (suc f) a c)
  unfolding argument_rest
  argument_rest-Ends a c h =
      branch-Ends (is_at raw "," c) _ _
        (λ _. bind-Ends (advance c) _ (advance-Ends c) (λ _ d x. consed-Ends a _ (
          wider _ (all.argument_list_ends d (omega (arith, rest-size c)))
            (omega (arith, rest-size c)))))
        (λ _. done-Ends _ c (omega arith))

  pub chevron_parts-Ends :
      (c : State)
      → 4 * size c + 2 ≤ suc f
      → Ends 0 (size c) (chevron_parts parse_float regexp_error (suc f) c)
  unfolding chevron_parts
  chevron_parts-Ends c h =
      branch-Ends (same_type c.token.type chevron_string) _ _
        (λ s. bind-Ends (advance c) _ (advance-Ends c) (λ _ d x. consed-Ends _ _ (
          wider _ (all.chevron_parts_ends d (omega (arith, size-type chevron_string c s refl)))
            (omega (arith, rest-size c)))))
        (λ _.
          branch-Ends (same_type c.token.type chevron_beesting_open) _ _
            (λ _. bind-Ends (advance c) _ (advance-Ends c) (λ _ d x.
              bind-Ends (expression parse_float regexp_error f 0 expected d) _
                (all.expression_ends 0 expected d (omega (arith, rest-size c)))
                (λ v e y.
                  bind-Ends (chomp chevron_beesting_close "}" e) _
                    (chomp-Ends chevron_beesting_close "}" e)
                    (λ _ g z. consed-Ends v _ (
                      wider _ (all.chevron_parts_ends g (omega (arith, rest-size c)))
                        (omega (arith, rest-size c)))))))
            (λ _. done-Ends _ c (omega arith)))
