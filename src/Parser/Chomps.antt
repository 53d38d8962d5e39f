-- ===== src/Parser/Chomps.antt =====
-- krl-parser/src/krl.ts: the functions that take one token, or a list of identifiers.
use Prim.Native.String.{◌++◌}
use pico_engine.Base.{String, Bool, true, false, not, ◌&&◌, if◌then◌else◌, has}
use pico_engine.Ast.{Node, identifier, domain_identifier}
use pico_engine.Lexer.State.{TokenType, raw, symbol}
use pico_engine.Parser.Rules.{reserved_words}
use pico_engine.Parser.State.{State, Outcome, done, failed, ◌>>=◌, advance, is_at, same_type}

unfoldable pub chomp : TokenType → String → State → Outcome Unit
chomp type src c = if is_at type src c then advance c else failed ("Expected `" ++ (src ++ "`"))

unfoldable pub chomp_maybe : TokenType → String → State → Outcome Bool
chomp_maybe type src c =
    if is_at type src c then (advance c >>= λ _ d. done true d) else done false c

-- `state.curr.token` is a symbol that is no reserved word.
unfoldable pub is_identifier : State → Bool
unfolding has
is_identifier c = same_type c.token.type symbol && not (has c.token.src reserved_words)

-- The identifier's name.
unfoldable pub chomp_identifier : State → Outcome String
chomp_identifier c =
    if is_identifier c
    then (advance c >>= λ _ d. done c.token.src d)
    else failed "Expected Identifier"

abbrev pub after_colon : String → Bool → State → Outcome Node
after_colon domain false c = done (identifier domain) c
after_colon domain true c =
    chomp_identifier c >>= λ value d. done (domain_identifier domain value) d

unfoldable pub chomp_identifier_or_domain_identifier : State → Outcome Node
unfolding chomp_identifier chomp_maybe
chomp_identifier_or_domain_identifier c = chomp_identifier c >>= λ domain d.
    chomp_maybe raw ":" d >>= λ colon e. after_colon domain colon e
