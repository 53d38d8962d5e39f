-- ===== src/Parser/RoundTrip.antt =====
-- krl-parser/src/krl.ts: expressions that are written out are read back.
mod Atoms
mod Operators
mod Members
mod Calls
use pico_engine.Base.{
  ℕ, suc, ◌+◌, ◌-◌, ◌≤◌, String, Bool, true, false, ◌==◌, ◌&&◌, ◌||◌, ◌≡◌, refl, ap, ◌∙◌, ◌∷◌,
  Option, lookup, arith, has,
}
use pico_engine.Ast.{
  Node, number, boolean, null, identifier, domain_identifier, infix_operator, unary_operator,
  conditional, member, dot, index, application, arguments,
}
use pico_engine.Lexer.State.{TokenType, raw, symbol}
use pico_engine.Lexer.State as Kind
use pico_engine.Parser.Rules.{
  symbol_nud, number_nud, boolean_nud, null_nud, prefix_nud, goes_on_rule, either_rule, rules,
  find_rule, infix_led, conditional_led, dot_led, index_led, application_led, reserved_words,
  type_name,
}
use pico_engine.Parser.State.{State, Outcome, done, advance, is_at, is_end}
use pico_engine.Parser.Chomps.{
  chomp, chomp_maybe, chomp_identifier, chomp_identifier_or_domain_identifier,
}
use pico_engine.Parser.Expressions.{
  expected, expression, run_nud, run_led, argument_list, argument_rest, is_name,
}
use pico_engine.Parser.Forms.{
  Form, Forms, word, domain_word, numeral, truth, nothing, operated, prefixed, choice, dot_word,
  at_index, call, last, more, node, nodes, operator_type, bare, listed, written, IsForm, AreForms,
  Spells, Reads, Follows,
}
use pico_engine.Parser.Steps.{bind-done, branch-true, branch-false, is_at-Spells, chomp-Spells}
use pico_engine.Parser.Written.{
  cost, costs, Reads-append, infix_facts, infix_level, prefix_facts, edge_behind, edge_closed,
  edge_whole, Spells-rule, Spells-Follows, two_more,
}
use pico_engine.Parser.Places.{Spine, starts, whole_read, goes_on, run}
use pico_engine.Parser.Openings.{
  written-Opens, chomp_maybe-Spells, chomp_maybe-other, is_at-other, chomp_identifier-Spells,
}
use pico_engine.Parser.RoundTrip.Atoms.{
  word-Spine, domain_word-Spine, numeral-Spine, truth-Spine, nothing-Spine,
}
use pico_engine.Parser.RoundTrip.Operators.{prefixed-Spine, operated-Spine, choice-Spine}
use pico_engine.Parser.RoundTrip.Members.{dot_word-Spine, at_index-Spine}
use pico_engine.Parser.RoundTrip.Calls.{IsListed, last-IsListed, more-IsListed, call-Spine}

module _ (parse_float : String → String) (regexp_error : String × String → Option String) where
  mutual
    unfolding IsForm AreForms

    form-Spine : (t : Form) → IsForm t → Spine parse_float regexp_error t
    form-Spine (word s) w = word-Spine parse_float regexp_error s w
    form-Spine (domain_word q s) w = domain_word-Spine parse_float regexp_error q s w
    form-Spine (numeral s) w = numeral-Spine parse_float regexp_error s w
    form-Spine (truth b) w = truth-Spine parse_float regexp_error b
    form-Spine nothing w = nothing-Spine parse_float regexp_error
    form-Spine (operated op bp l r) (i, wl, wr) =
        operated-Spine parse_float regexp_error op bp l r (i, wl, wr) (form-Spine l wl)
          (form-Spine r wr)
    form-Spine (prefixed op t) (i, w) =
        prefixed-Spine parse_float regexp_error op t (i, w) (form-Spine t w)
    form-Spine (choice p q r) (wp, wq, wr) =
        choice-Spine parse_float regexp_error p q r (wp, wq, wr) (form-Spine p wp) (form-Spine q wq)
          (form-Spine r wr)
    form-Spine (dot_word t s) (w, free) =
        dot_word-Spine parse_float regexp_error t s (w, free) (form-Spine t w)
    form-Spine (at_index t i) (w, wi) =
        at_index-Spine parse_float regexp_error t i (w, wi) (form-Spine t w) (form-Spine i wi)
    form-Spine (call t rest) (w, ws) =
        call-Spine parse_float regexp_error t rest w (form-Spine t w) (forms-IsListed rest ws)

    forms-IsListed : (rest : Forms) → AreForms rest → IsListed parse_float regexp_error rest
    forms-IsListed (last t) w = last-IsListed parse_float regexp_error t w (form-Spine t w)
    forms-IsListed (more t rest) (w, ws) =
        more-IsListed parse_float regexp_error t rest w (form-Spine t w) (forms-IsListed rest ws)

  -- With fuel for its nested calls, the parser reads a form that is written out as the form's node,
  -- up to a token that binds no tighter than the place and is no colon.
  pub expression-written :
      (t : Form) (f k : ℕ) (m : String) (c d : State)
      → IsForm t
      → 4 + cost t ≤ f
      → k ≤ 70
      → Reads c (written k t) d
      → Follows k d
      → expression parse_float regexp_error f k m c ≡ done (node parse_float t) d
  expression-written t f k m c d w n u r h =
      whole_read parse_float regexp_error t f k m c d w (form-Spine t w) n u r h
