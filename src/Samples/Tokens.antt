-- ===== src/Samples/Tokens.antt =====
-- Source texts through krl-parser's tokenizer, and the witnesses of its properties.
use Prim.Native.String.{count}
use pico_engine.Base.{ℕ, String, ◌≡◌, refl, ◌⊎◌, arith, List, [], ◌∷◌, some}
use pico_engine.Lexer.State.{
  TokenType, Token, start, emit, push_tok, symbol, raw, chevron_open, chevron_string,
  chevron_beesting_open, chevron_beesting_close, chevron_close,
}
use pico_engine.Lexer.Step.{
  tokenizer, loop, read_token, read_slash, read_word, read_symbol, read_other, read_raw,
  read_chevron, handle_chevron_body, end_chevron, read_in_beesting,
}
use pico_engine.Lexer.Scan.{chevron_text, run_of, add_to_buffer, raw_at}
use pico_engine.Lexer.Texts.{joined_src}
use pico_engine.Lexer.Source.{IsPast, tokenizer-joins}
use pico_engine.Lexer.Locations.{Tiles, tokenizer-Tiles, loop_ends}
use pico_engine.Lexer.Beestings.{open_beestings, tokenizer-nests}

abbrev show : List Token → List (String × TokenType)
show [] = []
show (t ∷ ts) = (t.src, t.type) ∷ show ts

beesting_read :
    show (tokenizer "a<=<<b#{c}>>")
    ≡ ("a", symbol)
      ∷ ("<=", raw)
      ∷ ("<<", chevron_open)
      ∷ ("b", chevron_string)
      ∷ ("#{", chevron_beesting_open)
      ∷ ("c", symbol)
      ∷ ("}", chevron_beesting_close)
      ∷ (">>", chevron_close)
      ∷ []
unfolding tokenizer loop read_token start read_slash read_word read_symbol read_other read_raw
    read_chevron handle_chevron_body end_chevron chevron_text run_of add_to_buffer emit push_tok
    raw_at read_in_beesting pico_engine.Generate.is_space
beesting_read = refl

-- The second chevron is never closed in the source: its `>>` is the one before it.
unclosed_read :
    show (tokenizer "<<a>><<")
    ≡ ("<<", chevron_open)
      ∷ ("a", chevron_string)
      ∷ (">>", chevron_close)
      ∷ ("<<", chevron_open)
      ∷ (">>", chevron_close)
      ∷ []
unfolding tokenizer loop read_token start read_slash read_word read_chevron handle_chevron_body
    end_chevron chevron_text run_of add_to_buffer emit push_tok raw_at pico_engine.Generate.is_space
unclosed_read = refl

tokenizer-joins_example :
    (joined_src (tokenizer "a<=<<b#{c}>>") ≡ "a<=<<b#{c}>>")
    ⊎ IsPast "a<=<<b#{c}>>" (tokenizer "a<=<<b#{c}>>")
tokenizer-joins_example = tokenizer-joins "a<=<<b#{c}>>"

tokenizer-Tiles_example :
    Tiles 0 (tokenizer "a<=<<b#{c}>>") (count (joined_src (tokenizer "a<=<<b#{c}>>")))
tokenizer-Tiles_example = tokenizer-Tiles "a<=<<b#{c}>>"

loop_ends_example :
    ((loop 20 (start "a<=<<b#{c}>>")).rest ≡ "")
    × ((loop 20 (start "a<=<<b#{c}>>")).tokens ≡ tokenizer "a<=<<b#{c}>>")
loop_ends_example = loop_ends "a<=<<b#{c}>>" 20 (omega arith)

tokenizer-nests_example : (n : ℕ) × (open_beestings 0 (tokenizer "a<=<<b#{c}>>") ≡ some n)
tokenizer-nests_example = tokenizer-nests "a<=<<b#{c}>>"
