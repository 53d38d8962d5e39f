-- ===== src/Samples/Parsing.antt =====
-- Expressions parsed, and the witness of the theorem on them.
use pico_engine.Base.{
  ◌+◌, ◌*◌, length, List, String, ◌≡◌, ◌≢◌, refl, inl, inr, arith, has, [], Option, none, lookup,
}
use pico_engine.Ast.{Node, number}
use pico_engine.Lexer.State.{Token, start, emit, push_tok}
use pico_engine.Lexer.Step.{
  tokenizer, loop, read_token, read_slash, read_space, read_word, read_symbol, read_other, read_raw,
}
use pico_engine.Lexer.Scan.{run_of, add_to_buffer, raw_at}
use pico_engine.Generate.{is_space}
use pico_engine.Parser.Rules.{find_rule, bare_rule}
use pico_engine.Parser.State.{
  State, Outcome, done, failed, out_of_fuel, check_significant_token, advance_base, advance,
  end_token, is_at, is_end,
}
use pico_engine.Parser.Expressions.{expression, operators, run_nud, parse_within, parse_expression}
use pico_engine.Parser.Forms.{
  Form, word, operated, prefixed, call, last, node, bare, listed, IsForm, AreForms,
}
use pico_engine.Parser.Termination.{parse_expression-ends}
use pico_engine.Parser.Whole.{IsWrittenOut, parse_expression-written}

abbrev as_it_is : String → String
as_it_is s = s

abbrev valid : String × String → Option String
valid p = none

read : String → Outcome Node
read src = parse_expression as_it_is valid (tokenizer src)

abbrev at_end : State
at_end = record { token = end_token; rule = bare_rule "(end)"; rest = []; doc = none }

-- `a || -b + f(c)`
abbrev choices : Form
choices =
    operated "||" 20 (word "a")
      (operated "+" 50 (prefixed "-" (word "b")) (call (word "f") (last (word "c"))))

choices-IsForm : IsForm choices
unfolding IsForm AreForms lookup has
choices-IsForm = (
  inr (inr (inl refl)),
  (refl, refl),
  (inl refl, (inr (inl refl), (refl, refl)), ((refl, refl), (refl, refl))),
)

choices_written : IsWrittenOut choices (tokenizer "a || -b + f(c)") at_end
unfolding tokenizer loop read_token start read_slash read_word read_symbol read_other read_raw
    run_of add_to_buffer emit push_tok raw_at is_space bare listed find_rule lookup
    check_significant_token advance_base advance is_at is_end has read_space
choices_written = (
  _,
  refl,
  (
    _,
    (refl, refl, refl, refl, refl),
    (
      _,
      (refl, refl, refl, refl, refl),
      (
        _,
        (refl, refl, refl, refl, refl),
        (
          _,
          (refl, refl, refl, refl, refl),
          (
            _,
            (refl, refl, refl, refl, refl),
            (
              _,
              (refl, refl, refl, refl, refl),
              (
                _,
                (refl, refl, refl, refl, refl),
                (_, (refl, refl, refl, refl, refl), (_, (refl, refl, refl, refl, refl), refl)),
              ),
            ),
          ),
        ),
      ),
    ),
  ),
  refl,
  (omega arith, refl),
)

parse_expression-written_example :
    parse_expression as_it_is valid (tokenizer "a || -b + f(c)")
    ≡ done (node as_it_is choices) at_end
parse_expression-written_example =
    parse_expression-written as_it_is valid choices (tokenizer "a || -b + f(c)") at_end
      choices-IsForm choices_written

abbrev bracketed : List Token
bracketed = tokenizer "[a, function(b) { c = b; c }]"

parse_expression-ends_example :
    (parse_within as_it_is valid (4 * length bracketed + 1) bracketed ≢ out_of_fuel)
    × (parse_expression as_it_is valid bracketed ≢ out_of_fuel)
parse_expression-ends_example =
    parse_expression-ends as_it_is valid (4 * length bracketed + 1) bracketed (omega arith)

-- An identifier that is the name of a kind of token is read as a token of that kind.
number_read : read "NUMBER" ≡ done (number "NUMBER") at_end
unfolding read tokenizer loop read_token start read_slash read_word read_space read_symbol
    read_other read_raw run_of add_to_buffer emit push_tok raw_at is_space find_rule lookup
    check_significant_token advance_base advance is_end parse_expression parse_within expression
    operators run_nud has
number_read = refl

-- A word of event expressions cannot be read in an expression.
count_read : read "count + n" ≡ failed "Expected an expression"
unfolding read tokenizer loop read_token start read_slash read_word read_space read_symbol
    read_other read_raw run_of add_to_buffer emit push_tok raw_at is_space find_rule lookup
    check_significant_token advance_base advance is_end parse_expression parse_within expression
    operators run_nud has
count_read = refl
