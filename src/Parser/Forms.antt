-- ===== src/Parser/Forms.antt =====
-- krl-parser/src/krl.ts: expressions written out, with brackets where an operand binds no tighter
-- than its place.
use pico_engine.Base.{
  ℕ, ◌-◌, ◌≤◌, String, Bool, true, false, has, if◌then◌else◌, ◌≡◌, In, List, [], ◌∷◌, ◌++◌, none,
  some, lookup,
}
use pico_engine.Ast.{
  Node, Nodes, nil, cons, number, boolean, null, identifier, domain_identifier, infix_operator,
  unary_operator, conditional, member, dot, index, application, arguments,
}
use pico_engine.Lexer.State.{TokenType, raw, symbol}
use pico_engine.Lexer.State as Kind
use pico_engine.Parser.Rules.{infixes, rules, find_rule, reserved_words}
use pico_engine.Parser.State.{State, done, advance, is_at, is_end}
use pico_engine.Parser.Expressions.{binds_tighter}

mutual
  pub data Form : Type 0 where
    word : String → Form
    domain_word : String → String → Form
    numeral : String → Form
    truth : Bool → Form
    nothing : Form
    operated : String → ℕ → Form → Form → Form
    prefixed : String → Form → Form
    choice : Form → Form → Form → Form
    dot_word : Form → String → Form
    at_index : Form → Form → Form
    call : Form → Forms → Form

  pub data Forms : Type 0 where
    last : Form → Forms
    more : Form → Forms → Forms

unfoldable mutual
  pub node : (String → String) → Form → Node
  node parse_float (word s) = identifier s
  node parse_float (domain_word d s) = domain_identifier d s
  node parse_float (numeral s) = number (parse_float s)
  node parse_float (truth b) = boolean b
  node parse_float nothing = null
  node parse_float (operated op bp l r) =
      infix_operator op (node parse_float l) (node parse_float r)
  node parse_float (prefixed op a) = unary_operator op (node parse_float a)
  node parse_float (choice a b c) =
      conditional (node parse_float a) (node parse_float b) (node parse_float c)
  node parse_float (dot_word a s) = member (node parse_float a) dot (identifier s)
  node parse_float (at_index a i) = member (node parse_float a) index (node parse_float i)
  node parse_float (call a rest) =
      application (node parse_float a) (arguments (nodes parse_float rest))

  pub nodes : (String → String) → Forms → Nodes
  nodes parse_float (last a) = cons (node parse_float a) nil
  nodes parse_float (more a rest) = cons (node parse_float a) (nodes parse_float rest)

-- How tight the outermost operator binds.
abbrev pub level : Form → ℕ
level (operated op bp l r) = bp
level (prefixed op a) = 70
level (choice a b c) = 1
level (dot_word a s) = 80
level (at_index a i) = 80
level (call a rest) = 80
level _ = 100

-- How tight an operator behind the expression must not bind.
abbrev pub edge : Form → ℕ
edge (operated op bp l r) = bp
edge (prefixed op a) = 70
edge (choice a b c) = 0
edge _ = 100

abbrev pub Piece : Type 0
Piece = TokenType × String

abbrev pub wrap : Bool → List Piece → List Piece
wrap true ps = ps
wrap false ps = (raw, "(") ∷ (ps ++ ((raw, ")") ∷ []))

-- The operators that are words.
abbrev pub operator_type : String → TokenType
operator_type op = if has op ("like" ∷ "cmp" ∷ "not" ∷ []) then symbol else raw

unfoldable mutual
  pub bare : Form → List Piece
  bare (word s) = (symbol, s) ∷ []
  bare (domain_word d s) = (symbol, d) ∷ (raw, ":") ∷ (symbol, s) ∷ []
  bare (numeral s) = (Kind.number, s) ∷ []
  bare (truth true) = (symbol, "true") ∷ []
  bare (truth false) = (symbol, "false") ∷ []
  bare nothing = (symbol, "null") ∷ []
  bare (operated op bp l r) =
      wrap (binds_tighter (bp - 1) (level l)) (bare l)
      ++ ((operator_type op, op) ∷ wrap (binds_tighter bp (level r)) (bare r))
  bare (prefixed op a) = (operator_type op, op) ∷ wrap (binds_tighter 70 (level a)) (bare a)
  bare (choice a b c) =
      wrap (binds_tighter 10 (level a)) (bare a)
      ++ ((raw, "=>")
          ∷ (wrap (binds_tighter 10 (level b)) (bare b)
              ++ ((raw, "|") ∷ wrap (binds_tighter 0 (level c)) (bare c))))
  bare (dot_word a s) =
      wrap (binds_tighter 79 (level a)) (bare a) ++ ((raw, ".") ∷ (symbol, s) ∷ [])
  bare (at_index a i) =
      wrap (binds_tighter 79 (level a)) (bare a)
      ++ ((raw, "[") ∷ (wrap (binds_tighter 0 (level i)) (bare i) ++ ((raw, "]") ∷ [])))
  bare (call a rest) =
      wrap (binds_tighter 79 (level a)) (bare a)
      ++ ((raw, "(") ∷ (listed rest ++ ((raw, ")") ∷ [])))

  pub listed : Forms → List Piece
  listed (last a) = wrap (binds_tighter 0 (level a)) (bare a)
  listed (more a rest) = wrap (binds_tighter 0 (level a)) (bare a) ++ ((raw, ",") ∷ listed rest)

-- The form in a place that binds as tight as the number.
abbrev pub written : ℕ → Form → List Piece
written k t = wrap (binds_tighter k (level t)) (bare t)

-- No id of a rule and no reserved word.
abbrev pub IsWord : String → Type 0
IsWord s = (lookup s rules ≡ none) × (has s reserved_words ≡ false)

abbrev pub all_infixes : List (String × ℕ)
all_infixes = ("+", 50) ∷ ("-", 50) ∷ infixes

unfoldable mutual
  pub IsForm : Form → Type 0
  IsForm (word s) = IsWord s
  IsForm (domain_word d s) = IsWord d × IsWord s
  IsForm (numeral s) = lookup s rules ≡ none
  IsForm (truth b) = Unit
  IsForm nothing = Unit
  IsForm (operated op bp l r) = In (op, bp) all_infixes × IsForm l × IsForm r
  IsForm (prefixed op a) = In op ("+" ∷ "-" ∷ "not" ∷ []) × IsForm a
  IsForm (choice a b c) = IsForm a × IsForm b × IsForm c
  IsForm (dot_word a s) = IsForm a × IsWord s
  IsForm (at_index a i) = IsForm a × IsForm i
  IsForm (call a rest) = IsForm a × AreForms rest

  pub AreForms : Forms → Type 0
  AreForms (last a) = IsForm a
  AreForms (more a rest) = IsForm a × AreForms rest

-- The current token is the piece, not the end, and the next significant one is current in the other state.
abbrev pub Spells : State → Piece → State → Type 0
Spells c (type, src) d =
    (c.token.type ≡ type)
    × (c.token.src ≡ src)
    × (some c.rule ≡ find_rule type src)
    × (advance c ≡ done tt d)
    × (is_end c ≡ false)

-- The significant tokens from one state up to the other are the pieces.
abbrev pub Reads : State → List Piece → State → Type 0
Reads c [] d = c ≡ d
Reads c (p ∷ ps) d = (e : State) × Spells c p e × Reads e ps d

-- No operator that binds tighter goes on behind the expression, and no colon.
abbrev pub Follows : ℕ → State → Type 0
Follows k d = (d.rule.lbp ≤ k) × (is_at raw ":" d ≡ false)
