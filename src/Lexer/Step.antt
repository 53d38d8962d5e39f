-- ===== src/Lexer/Step.antt =====
-- krl-parser/src/tokenizer.ts: one round of the main loop, branch by branch, and the loop.
use Prim.Native.String.{◌++◌, count}
use pico_engine.Base.{
  ℕ, zero, suc, String, ◌==◌, Bool, true, false, not, ◌&&◌, ◌||◌, if◌then◌else◌, none, some, List,
  [], ◌∷◌,
}
use pico_engine.Generate.{is_space, is_code}
use pico_engine.Lexer.Scan.{
  longer_than, is_digit, starts_symbol, in_symbol, is_flag, take, drop, next_is, starts_fraction,
  add_to_buffer, run_of, chevron_text, raw_at, raw_toks,
}
use pico_engine.Lexer.State.{
  Token, Lexer, start, emit, white_space, line_comment, block_comment, symbol, number, string,
  regexp, chevron_open, chevron_string, chevron_beesting_open, chevron_beesting_close,
  chevron_close, raw, illegal, missing_close,
}

abbrev pub is_empty : String → Bool
is_empty String.[] = true
is_empty (String.◌∷◌ c s) = false

-- The pushes at the end of handleChevronBody; `advance(2)` follows in each case.
unfoldable pub end_chevron : Lexer → Lexer
end_chevron st =
    if st.peek == "#{"
    then record (emit "#{" chevron_beesting_open none (drop 2 st.rest) st) {
      beesting_stack = 0 ∷ st.beesting_stack;
    }
    else if st.peek == ">>"
    then emit ">>" chevron_close none (drop 2 st.rest) st
    else record st { rest = drop 2 st.rest }

unfoldable pub handle_chevron_body : Lexer → Lexer
unfolding chevron_text
handle_chevron_body st =
    let body = chevron_text false st.peek st.rest in
    let seen = record st { peek = body.peek; rest = body.rest } in
    end_chevron
      (if is_empty body.buff then seen else emit body.buff chevron_string none body.rest seen)

unfoldable pub read_space : Lexer → Lexer
read_space st = let run = run_of is_space st.rest in emit run.buff white_space none run.rest st

-- `c` is kept when the comment ends at a line's end.
unfoldable pub read_line_comment : Lexer → Lexer
read_line_comment st =
    let run = run_of (λ c. not (is_code 10 c || is_code 13 c)) st.rest in
    emit (run.buff ++ take 1 run.rest) line_comment none (drop 1 run.rest) st

unfoldable pub read_block_comment : Lexer → Lexer
read_block_comment st =
    let run = add_to_buffer (λ n r. (take 2 r == "*/") && longer_than 1 n) false false 0 st.rest in
    if is_empty run.rest
    then emit run.buff missing_close (some "*/") "" st
    else emit (run.buff ++ "*/") block_comment none (drop 2 run.rest) st

-- The number that starts here: digits, a fraction, or both.
unfoldable pub read_number : Lexer → Lexer
read_number st =
    let whole = run_of is_digit st.rest in
    let fraction = run_of is_digit (drop 1 whole.rest) in
    if starts_fraction whole.rest
    then emit (whole.buff ++ ("." ++ fraction.buff)) number none fraction.rest st
    else emit whole.buff number none whole.rest st

unfoldable pub read_string : Lexer → Lexer
read_string st =
    let run =
      add_to_buffer (λ n r. next_is (is_code 34) r && longer_than 0 n) true false 0 st.rest in
    if is_empty run.rest
    then emit run.buff missing_close (some "\"") "" st
    else emit (run.buff ++ "\"") string none (drop 1 run.rest) st

unfoldable pub read_regexp : Lexer → Lexer
read_regexp st =
    let run =
      add_to_buffer (λ n r. next_is (is_code 35) r && longer_than 2 n) true false 0 st.rest in
    let flags = run_of is_flag (drop 1 run.rest) in
    if next_is (is_code 35) run.rest
    then emit (run.buff ++ ("#" ++ flags.buff)) regexp none flags.rest st
    else emit run.buff missing_close (some "#") run.rest st

unfoldable pub read_chevron : Lexer → Lexer
read_chevron st = handle_chevron_body (emit "<<" chevron_open none (drop 2 st.rest) st)

unfoldable pub read_symbol : Lexer → Lexer
read_symbol st = let run = run_of in_symbol st.rest in emit run.buff symbol none run.rest st

-- The first of the raw tokens that matches, or one illegal character.
unfoldable pub read_raw : Lexer → Lexer
read_raw st = elim (raw_at raw_toks st.rest) [
  | some tok ↦ emit tok raw none (drop (count tok) st.rest) st
  | none ↦ emit (take 1 st.rest) illegal none (drop 1 st.rest) st
]

-- `{` and `}` inside a beesting, which the `}` that balances its opening closes.
unfoldable pub read_in_beesting : ℕ → List ℕ → Lexer → Lexer
read_in_beesting zero outer st =
    if next_is (is_code 123) st.rest
    then read_raw (record st { beesting_stack = 1 ∷ outer })
    else if next_is (is_code 125) st.rest
    then handle_chevron_body (record (emit "}" chevron_beesting_close none (drop 1 st.rest) st) {
      beesting_stack = outer;
    })
    else read_raw st
read_in_beesting (suc count) outer st =
    if next_is (is_code 123) st.rest
    then read_raw (record st { beesting_stack = suc (suc count) ∷ outer })
    else if next_is (is_code 125) st.rest
    then read_raw (record st { beesting_stack = count ∷ outer })
    else read_raw st

-- The last branches, under the given stack of beestings.
unfoldable pub read_other : List ℕ → Lexer → Lexer
read_other [] st = read_raw st
read_other (count ∷ outer) st = read_in_beesting count outer st

-- The branches behind those for comments, in their order.
unfoldable pub read_word : Lexer → Lexer
read_word st =
    if next_is is_digit st.rest || starts_fraction st.rest
    then read_number st
    else if next_is (is_code 34) st.rest
    then read_string st
    else if take 3 st.rest == "re#"
    then read_regexp st
    else if take 2 st.rest == "<<"
    then read_chevron st
    else if next_is starts_symbol st.rest
    then read_symbol st
    else read_other st.beesting_stack st

-- `peek` is `src[i + 1]` here, the empty text past the end.
unfoldable pub read_slash : Lexer → Lexer
read_slash st =
    if st.peek == "/"
    then read_line_comment st
    else if st.peek == "*"
    then read_block_comment st
    else read_word st

-- A round of the main loop, for a rest that is not empty.
unfoldable pub read_token : Lexer → Lexer
read_token st =
    if next_is is_space st.rest
    then read_space st
    else if next_is (is_code 47) st.rest
    then read_slash (record st { peek = take 1 (drop 1 st.rest) })
    else read_word st

unfoldable pub loop : ℕ → Lexer → Lexer
loop zero st = st
loop (suc fuel) st = elim (is_empty st.rest) [ true ↦ st | false ↦ loop fuel (read_token st) ]

-- A round reads at least one character, so the source's length is fuel enough.
unfoldable pub tokenizer : String → List Token
tokenizer src = (loop (count src) (start src)).tokens
