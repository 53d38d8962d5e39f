-- ===== src/Parser/State.antt =====
-- krl-parser/src/tdop.ts: the current token, and the way to the next one. What a parser returns is
-- a value with the state after it, or an error by its message, less the list of rules' ids.
use Prim.Native.String.{◌++◌}
use pico_engine.Base.{String, Bool, ◌&&◌, ◌==◌, if◌then◌else◌, List, [], ◌∷◌, Option, none, some}
use pico_engine.Lexer.State.{
  TokenType, Token, white_space, line_comment, block_comment, illegal, missing_close,
}
use pico_engine.DocComments.Parse.{is_doc_comment_token}
use pico_engine.Parser.Rules.{Rule, bare_rule, find_rule, type_name}

-- `state.curr`, the tokens behind it, and the doc comment that stands before it with nothing but
-- white space and line comments between.
pub record State : Type 0 where
  pub token : Token
  pub rule : Rule
  pub rest : List Token
  pub doc : Option Token

-- `left_out` stands for what the model does not follow, `out_of_fuel` for calls without end.
pub data Outcome (A : Type 0) : Type 0 where
  done : A → State → Outcome A
  failed : String → Outcome A
  left_out out_of_fuel : Outcome A

infixl 1 ◌>>=◌
abbrev pub ◌>>=◌ : {A B : Type 0} → Outcome A → (A → State → Outcome B) → Outcome B
done a c >>= f = f a c
failed message >>= f = failed message
left_out >>= f = left_out
out_of_fuel >>= f = out_of_fuel

-- The token behind the last one.
abbrev pub end_token : Token
end_token = record { type = white_space; src = ""; start = 0; end = 0; missing_close = none }

abbrev pub or_unhandled : Option Rule → Token → List Token → Option Token → Outcome Unit
or_unhandled none token rest doc = failed "Unhandled token."
or_unhandled (some rule) token rest doc =
    done tt (record { token = token; rule = rule; rest = rest; doc = doc })

abbrev close_name : Option String → String
close_name none = "undefined"
close_name (some close) = close

-- Whether a token counts, or the error that it is.
pub data Significance : Type 0 where
  significant passed_over : Significance
  refused : String → Significance

abbrev significance_of : TokenType → Option String → Significance
significance_of missing_close close = refused ("Missing close " ++ close_name close)
significance_of illegal close = refused "Unsupported characters"
significance_of white_space close = passed_over
significance_of line_comment close = passed_over
significance_of block_comment close = passed_over
significance_of _ close = significant

unfoldable pub check_significant_token : Token → Significance
check_significant_token t = significance_of t.type t.missing_close

-- The doc comment that is attached behind a token that is passed over.
abbrev pub doc_behind : TokenType → Token → Option Token → Option Token
doc_behind block_comment t doc = if is_doc_comment_token t then some t else none
doc_behind _ t doc = doc

-- What is done with a token that is passed over, and with one that counts.
abbrev pub when_checked :
    {A : Type 0} → Significance → (Unit {0} → Outcome A) → Outcome A → Outcome A
when_checked (refused message) go_on stop = failed message
when_checked passed_over go_on stop = go_on tt
when_checked significant go_on stop = stop

unfoldable pub advance_base : Option Token → List Token → Outcome Unit
unfolding find_rule is_doc_comment_token check_significant_token
advance_base doc [] =
    done tt (record { token = end_token; rule = bare_rule "(end)"; rest = []; doc = doc })
advance_base doc (t ∷ ts) =
    when_checked (check_significant_token t) (λ _. advance_base (doc_behind t.type t doc) ts)
      (or_unhandled (find_rule t.type t.src) t ts doc)

unfoldable pub advance : State → Outcome Unit
unfolding advance_base
advance c = advance_base none c.rest

-- The significant token behind the current one, `lookahead(state, 2)[1]`.
unfoldable pub next_token : List Token → State → Outcome (Option Token)
unfolding check_significant_token
next_token [] c = done none c
next_token (t ∷ ts) c =
    when_checked (check_significant_token t) (λ _. next_token ts c) (done (some t) c)

abbrev pub same_type : TokenType → TokenType → Bool
same_type a b = type_name a == type_name b

-- `state.curr.token.type === type && state.curr.token.src === src`
unfoldable pub is_at : TokenType → String → State → Bool
is_at type src c = same_type c.token.type type && c.token.src == src

-- `state.curr.token_i === state.tokens.length`
unfoldable pub is_end : State → Bool
is_end c = same_type c.token.type white_space
