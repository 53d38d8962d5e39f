-- ===== src/Parser/Whole.antt =====
-- krl-parser/src/krl.ts: parseExpression on an expression that is written out.
use pico_engine.Base.{
  ◌+◌, ◌*◌, ◌≤◌, String, true, ◌==◌, ◌≡◌, ◌∙◌, List, [], ◌∷◌, Option, none, length, arith,
}
use pico_engine.Lexer.State.{Token}
use pico_engine.Parser.State.{State, done, advance_base}
use pico_engine.Parser.Expressions.{expected, expression, parse_within, parse_expression}
use pico_engine.Parser.Forms.{Form, node, written, IsForm, Reads, Follows}
use pico_engine.Parser.Steps.{bind-done, branch-true}
use pico_engine.Parser.Written.{cost}
use pico_engine.Parser.RoundTrip.{expression-written}
use pico_engine.Parser.Fuel.{cost-written, advance_base-left, Reads-left}

-- The significant tokens spell the form that is written out, and the end comes behind them.
abbrev pub IsWrittenOut : Form → List Token → State → Type 0
IsWrittenOut t tokens d =
    (c : State) × (advance_base none tokens ≡ done tt c)
    × Reads c (written 0 t) d
    × ((d.rule.id == "(end)") ≡ true)
    × Follows 0 d

-- An expression of words, numerals, literals, operators, members, indices and calls, whose tokens
-- are written with brackets where an operand binds no tighter than its place, whatever white space
-- and comments stand between: parseExpression reads it as the expression's node, to the end.
pub parse_expression-written :
    (parse_float : String → String) (regexp_error : String × String → Option String) (t : Form)
    (tokens : List Token) (d : State)
    → IsForm t
    → IsWrittenOut t tokens d
    → parse_expression parse_float regexp_error tokens ≡ done (node parse_float t) d
unfolding parse_expression parse_within
parse_expression-written pf re t [] d w (c, a, r, h, fo) =
    absurd (
      omega
        (arith, cost-written 0 t, Reads-left (written 0 t) c d r, advance_base-left none [] c a))
parse_expression-written pf re t (x ∷ xs) d w (c, a, r, h, fo) =
    let enough : 4 + cost t ≤ 8 * length (x ∷ xs) = omega (
      arith,
      cost-written 0 t,
      Reads-left (written 0 t) c d r,
      advance_base-left none (x ∷ xs) c a,
    ) in
    bind-done (advance_base none (x ∷ xs)) _ tt c a
    ∙ bind-done (expression pf re (8 * length (x ∷ xs)) 0 expected c) _ (node pf t) d (
        expression-written pf re t (8 * length (x ∷ xs)) 0 expected c d w enough (omega arith) r fo)
    ∙ branch-true (d.rule.id == "(end)") _ _ h
