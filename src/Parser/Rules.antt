-- ===== src/Parser/Rules.antt =====
-- krl-parser/src/krl.ts: the table of rules. A rule of events only, or without any function, has
-- its id alone.
use pico_engine.Base.{ℕ, String, Bool, true, false, List, [], ◌∷◌, ◌++◌, Option, none, some, lookup}
use pico_engine.Lexer.State.{
  TokenType, white_space, line_comment, block_comment, symbol, number, string, regexp, chevron_open,
  chevron_string, chevron_beesting_open, chevron_beesting_close, chevron_close, raw, illegal,
  missing_close,
}

-- What a rule does with a token that starts an expression.
pub data Nud : Type 0 where
  map_nud brackets_nud array_nud function_nud def_action_nud null_nud : Nud
  symbol_nud number_nud string_nud chevron_nud regexp_nud : Nud
  boolean_nud : Bool → Nud
  prefix_nud : ℕ → Nud

-- What it does with one that goes on behind an expression.
pub data Led : Type 0 where
  dot_led path_led application_led index_led conditional_led : Led
  infix_led : String → ℕ → Led

pub record Rule : Type 0 where
  pub id : String
  pub nud : Option Nud
  pub lbp : ℕ
  pub led : Option Led

abbrev pub bare_rule : String → Rule
bare_rule id = record { id = id; nud = none; lbp = 0; led = none }

abbrev pub starts_with_rule : String → Nud → Rule
starts_with_rule id nud = record { id = id; nud = some nud; lbp = 0; led = none }

abbrev pub goes_on_rule : String → Option Nud → ℕ → Led → Rule
goes_on_rule id nud lbp led = record { id = id; nud = nud; lbp = lbp; led = some led }

-- The calls of `defInfix`, but for `+` and `-`, which are prefixes too.
abbrev pub infixes : List (String × ℕ)
infixes =
    ("||", 20)
    ∷ ("&&", 30)
    ∷ ("==", 40)
    ∷ ("!=", 40)
    ∷ ("<", 40)
    ∷ ("<=", 40)
    ∷ (">", 40)
    ∷ (">=", 40)
    ∷ ("like", 40)
    ∷ ("><", 40)
    ∷ ("<=>", 40)
    ∷ ("cmp", 40)
    ∷ ("*", 60)
    ∷ ("/", 60)
    ∷ ("%", 60)
    ∷ []

abbrev infix_rules : List (String × ℕ) → List (String × Rule)
infix_rules [] = []
infix_rules ((op, bp) ∷ ops) = (op, goes_on_rule op none bp (infix_led op bp)) ∷ infix_rules ops

abbrev bare_rules : List String → List (String × Rule)
bare_rules [] = []
bare_rules (id ∷ ids) = (id, bare_rule id) ∷ bare_rules ids

abbrev pub rules : List (String × Rule)
rules =
    (".", goes_on_rule "." none 80 dot_led)
    ∷ ("{", goes_on_rule "{" (some map_nud) 80 path_led)
    ∷ ("(", goes_on_rule "(" (some brackets_nud) 90 application_led)
    ∷ ("[", goes_on_rule "[" (some array_nud) 80 index_led)
    ∷ ("=>", goes_on_rule "=>" none 10 conditional_led)
    ∷ ("+", goes_on_rule "+" (some (prefix_nud 70)) 50 (infix_led "+" 50))
    ∷ ("-", goes_on_rule "-" (some (prefix_nud 70)) 50 (infix_led "-" 50))
    ∷ ("not", starts_with_rule "not" (prefix_nud 70))
    ∷ ("function", starts_with_rule "function" function_nud)
    ∷ ("defaction", starts_with_rule "defaction" def_action_nud)
    ∷ ("true", starts_with_rule "true" (boolean_nud true))
    ∷ ("false", starts_with_rule "false" (boolean_nud false))
    ∷ ("null", starts_with_rule "null" null_nud)
    ∷ ("SYMBOL", starts_with_rule "SYMBOL" symbol_nud)
    ∷ ("NUMBER", starts_with_rule "NUMBER" number_nud)
    ∷ ("STRING", starts_with_rule "STRING" string_nud)
    ∷ ("CHEVRON-OPEN", starts_with_rule "CHEVRON-OPEN" chevron_nud)
    ∷ ("REGEXP", starts_with_rule "REGEXP" regexp_nud)
    ∷ (infix_rules infixes
        ++ bare_rules (
            "CHEVRON-STRING" ∷ "CHEVRON-BEESTING-OPEN" ∷ "CHEVRON-BEESTING-CLOSE" ∷ "CHEVRON-CLOSE"
            ∷ "or" ∷ "and" ∷ "before" ∷ "then" ∷ "after" ∷ "between" ∷ "any" ∷ "count" ∷ "repeat"
            ∷ "," ∷ ";" ∷ ":" ∷ ":=" ∷ "=" ∷ "|" ∷ "}" ∷ ")" ∷ "]" ∷ "(end)" ∷ []))

-- `token.type`
abbrev pub type_name : TokenType → String
type_name white_space = "WHITESPACE"
type_name line_comment = "LINE-COMMENT"
type_name block_comment = "BLOCK-COMMENT"
type_name symbol = "SYMBOL"
type_name number = "NUMBER"
type_name string = "STRING"
type_name regexp = "REGEXP"
type_name chevron_open = "CHEVRON-OPEN"
type_name chevron_string = "CHEVRON-STRING"
type_name chevron_beesting_open = "CHEVRON-BEESTING-OPEN"
type_name chevron_beesting_close = "CHEVRON-BEESTING-CLOSE"
type_name chevron_close = "CHEVRON-CLOSE"
type_name raw = "RAW"
type_name illegal = "ILLEGAL"
type_name missing_close = "MISSING-CLOSE"

abbrev pub either_rule : Option Rule → Option Rule → Option Rule
either_rule (some rule) other = some rule
either_rule none other = other

-- `rules[token.src]`, else `rules[token.type]`.
unfoldable pub find_rule : TokenType → String → Option Rule
unfolding lookup
find_rule type src = either_rule (lookup src rules) (lookup (type_name type) rules)

-- `RESERVED_WORDS_ENUM`
abbrev pub reserved_words : List String
reserved_words =
    "defaction" ∷ "function" ∷ "return" ∷ "not" ∷ "setting" ∷ "null" ∷ "true" ∷ "false" ∷ []
