-- ===== src/Parser/Termination/Openers.antt =====
-- krl-parser/src/krl.ts: what starts an expression end.
use pico_engine.Base.{ℕ, suc, ◌+◌, ◌*◌, ◌≤◌, String, Option, none, some, arith, has}
use pico_engine.Lexer.State.{Token, raw, symbol, chevron_close}
use pico_engine.Parser.Rules.{
  Nud, map_nud, brackets_nud, array_nud, function_nud, def_action_nud, null_nud, symbol_nud,
  number_nud, string_nud, chevron_nud, regexp_nud, boolean_nud, prefix_nud, reserved_words,
}
use pico_engine.Parser.State.{State}
use pico_engine.Parser.Chomps.{chomp, chomp_maybe}
use pico_engine.Parser.Values.{regexp_of}
use pico_engine.Parser.Expressions.{
  expected, expression, run_nud, array_items, map_items, parameter_list, declaration_list,
  chevron_parts, regexp_literal,
}
use pico_engine.Parser.Settled.{
  size, Ends, bind-Ends, done-Ends, failed-Ends, left_out-Ends, wider, branch-Ends, chomp-Ends,
  chomp_maybe-Ends, after_colon-Ends,
}
use pico_engine.Parser.Termination.Calls.{Ending}

module _ (parse_float : String → String) (regexp_error : String × String → Option String) where
  regexp_literal-Ends :
      (parts : String × String) (o : Option String) (c : State)
      → Ends 0 (size c) (regexp_literal parse_float regexp_error parts o c)
  regexp_literal-Ends parts none c = done-Ends _ c (omega arith)
  regexp_literal-Ends parts (some message) c = failed-Ends message

module _ (parse_float : String → String) (regexp_error : String × String → Option String) (f : ℕ)
    (all : Ending parse_float regexp_error f) where
  pub run_nud-Ends :
      (n : Nud) (t : Token) (c : State)
      → 4 * size c + 3 ≤ suc f
      → Ends 0 (size c) (run_nud parse_float regexp_error (suc f) n t c)
  unfolding run_nud
  run_nud-Ends map_nud t c h =
      bind-Ends (map_items parse_float regexp_error f c) _ (all.map_items_ends c (omega arith))
        (λ ps d a.
          bind-Ends (chomp raw "}" d) _ (chomp-Ends raw "}" d)
            (λ _ e b. done-Ends _ e (omega arith)))
  run_nud-Ends brackets_nud t c h =
      bind-Ends (expression parse_float regexp_error f 0 expected c) _
        (all.expression_ends 0 expected c (omega arith))
        (λ v d a.
          bind-Ends (chomp raw ")" d) _ (chomp-Ends raw ")" d)
            (λ _ e b. done-Ends v e (omega arith)))
  run_nud-Ends array_nud t c h =
      bind-Ends (array_items parse_float regexp_error f c) _ (all.array_items_ends c (omega arith))
        (λ vs d a.
          bind-Ends (chomp raw "]" d) _ (chomp-Ends raw "]" d)
            (λ _ e b. done-Ends _ e (omega arith)))
  run_nud-Ends function_nud t c h = bind-Ends (chomp raw "(" c) _ (chomp-Ends raw "(" c) (λ _ c1 h1.
      bind-Ends (parameter_list parse_float regexp_error f c1) _
        (all.parameter_list_ends c1 (omega arith))
        (λ ps c2 h2. bind-Ends (chomp raw ")" c2) _ (chomp-Ends raw ")" c2) (λ _ c3 h3.
          bind-Ends (chomp raw "{" c3) _ (chomp-Ends raw "{" c3) (λ _ c4 h4.
            bind-Ends (declaration_list parse_float regexp_error f c4) _
              (all.declaration_list_ends c4 (omega arith))
              (λ body c5 h5.
                bind-Ends (chomp_maybe symbol "return" c5) _ (chomp_maybe-Ends symbol "return" c5)
                  (λ _ c6 h6.
                    bind-Ends (expression parse_float regexp_error f 0 _ c6) _
                      (all.expression_ends 0 _ c6 (omega arith))
                      (λ value c7 h7.
                        bind-Ends (chomp_maybe raw ";" c7) _ (chomp_maybe-Ends raw ";" c7)
                          (λ _ c8 h8.
                            bind-Ends (chomp raw "}" c8) _ (chomp-Ends raw "}" c8)
                              (λ _ c9 h9. done-Ends _ c9 (omega arith))))))))))
  run_nud-Ends def_action_nud t c h = left_out-Ends
  run_nud-Ends null_nud t c h = done-Ends _ c (omega arith)
  run_nud-Ends symbol_nud t c h =
      branch-Ends (has t.src reserved_words) _ _ (λ _. failed-Ends _)
        (λ _.
          bind-Ends (chomp_maybe raw ":" c) _ (chomp_maybe-Ends raw ":" c)
            (λ colon d a. wider _ (after_colon-Ends t.src colon d) (omega arith)))
  run_nud-Ends number_nud t c h = done-Ends _ c (omega arith)
  run_nud-Ends string_nud t c h = done-Ends _ c (omega arith)
  run_nud-Ends chevron_nud t c h =
      bind-Ends (chevron_parts parse_float regexp_error f c) _
        (all.chevron_parts_ends c (omega arith))
        (λ ps d a.
          bind-Ends (chomp chevron_close ">>" d) _ (chomp-Ends chevron_close ">>" d)
            (λ _ e b. done-Ends _ e (omega arith)))
  run_nud-Ends regexp_nud t c h =
      regexp_literal-Ends parse_float regexp_error (regexp_of t.src)
        (regexp_error (regexp_of t.src)) c
  run_nud-Ends (boolean_nud b) t c h = done-Ends _ c (omega arith)
  run_nud-Ends (prefix_nud k) t c h =
      bind-Ends (expression parse_float regexp_error f k expected c) _
        (all.expression_ends k expected c (omega arith)) (λ v d a. done-Ends _ d (omega arith))
