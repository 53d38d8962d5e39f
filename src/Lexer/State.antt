-- ===== src/Lexer/State.antt =====
-- krl-parser/src/tokenizer.ts: the tokens, and the variables that tokenizer's closures share.
use Prim.Native.String.{count}
use pico_engine.Base.{ℕ, ◌+◌, String, Option, List, [], ◌∷◌, ◌++◌}

pub data TokenType : Type 0 where
  white_space : TokenType
  line_comment : TokenType
  block_comment : TokenType
  symbol : TokenType
  number : TokenType
  string : TokenType
  regexp : TokenType
  chevron_open : TokenType
  chevron_string : TokenType
  chevron_beesting_open : TokenType
  chevron_beesting_close : TokenType
  chevron_close : TokenType
  raw : TokenType
  illegal : TokenType
  missing_close : TokenType

pub record Token : Type 0 where
  pub type : TokenType
  pub src : String
  pub start : ℕ
  pub end : ℕ
  pub missing_close : Option String

-- `beesting_stack` holds the curly counts, the innermost beesting first.
pub record Lexer : Type 0 where
  pub tokens : List Token
  pub next_index : ℕ
  pub peek : String
  pub beesting_stack : List ℕ
  pub rest : String

unfoldable pub start : String → Lexer
start src = record { tokens = []; next_index = 0; peek = ""; beesting_stack = []; rest = src }

-- `missingClose` is the last argument.
unfoldable pub push_tok : String → TokenType → Option String → Lexer → Lexer
push_tok value type missing st = record st {
  tokens =
      st.tokens
      ++ (record {
        type = type;
        src = value;
        start = st.next_index;
        end = st.next_index + count value;
        missing_close = missing;
      }
          ∷ []);
  next_index = st.next_index + count value;
}

-- A push, and the index moved to where the given rest begins.
unfoldable pub emit : String → TokenType → Option String → String → Lexer → Lexer
unfolding push_tok
emit value type missing rest st = record (push_tok value type missing st) { rest = rest }
