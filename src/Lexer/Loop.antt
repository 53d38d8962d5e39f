-- ===== src/Lexer/Loop.antt =====
-- krl-parser/src/tokenizer.ts: every round of the main loop reads a character, so the loop ends.
use Prim.Native.String.{count}
use text.Mathlib.TextLemmas.{length-eq-zero_iff}
use pico_engine.Base.{
  ℕ, zero, suc, ◌≤◌, ◌==◌, ◌≡◌, refl, inl, inr, true, false, ◌||◌, Bool-cases, none, List, [], ◌∷◌,
  arith,
}
use pico_engine.Generate.{is_space, is_code}
use pico_engine.Lexer.Scan.{is_digit, starts_symbol, take, drop, next_is, starts_fraction}
use pico_engine.Lexer.State.{Lexer, push_tok, emit, chevron_open, chevron_beesting_close}
use pico_engine.Lexer.Step.{
  is_empty, handle_chevron_body, read_chevron, read_raw, read_in_beesting, read_other, read_word,
  read_slash, read_token, loop,
}
use pico_engine.Lexer.Buffers.{starts, starts_char}
use pico_engine.Lexer.Moves.{
  closes, counts, Steps, stay, move, Steps-trans, Reads, Reads-then, peeked, Reads-emit, by_test,
  longer,
}
use pico_engine.Lexer.Branches.{handle_chevron_body-Steps, empty-eq}
use pico_engine.Lexer.Rounds.{
  read_space-Reads, read_symbol-Reads, read_line_comment-Reads, read_block_comment-Reads,
  read_string-Reads, read_regexp-Reads, read_number-Reads, read_raw-Reads, next_is-nonempty,
}
use pico_engine.Lexer.Texts.{ends_in_gap-snoc}

read_chevron-Reads : (st : Lexer) → (take 2 st.rest == "<<") ≡ true → Reads st (read_chevron st)
unfolding read_chevron emit push_tok
read_chevron-Reads st h =
    Reads-then
      (Reads-emit "<<" chevron_open none (drop 2 st.rest) st (starts "<<" st.rest 2 h) refl refl)
      (handle_chevron_body-Steps _ (ends_in_gap-snoc st.tokens _))

-- In a beesting whose curly count is `n`.
module _ (n : ℕ) (outer : List ℕ) (st : Lexer) (e : st.beesting_stack ≡ n ∷ outer) where
  counted :
      (m : ℕ)
      → is_empty st.rest ≡ false
      → Reads st (read_raw (record st { beesting_stack = m ∷ outer }))
  counted m h =
      let later = record st { beesting_stack = m ∷ outer } in
      let (steps, less) = read_raw-Reads later h in (move (counts n m outer e) steps, less)

  closed :
      next_is (is_code 125) st.rest ≡ true
      → Reads st (
          handle_chevron_body (record (emit "}" chevron_beesting_close none (drop 1 st.rest) st) {
            beesting_stack = outer;
          }))
  unfolding emit push_tok
  closed k =
      let brace = starts_char "}" st.rest k in
      Reads-then (move (closes (drop 1 st.rest) n outer brace e) stay, longer "}" _ _ brace refl)
        (handle_chevron_body-Steps _ (ends_in_gap-snoc st.tokens _))

read_in_beesting-Reads :
    (n : ℕ) (outer : List ℕ) (st : Lexer)
    → is_empty st.rest ≡ false
    → st.beesting_stack ≡ n ∷ outer
    → Reads st (read_in_beesting n outer st)
unfolding read_in_beesting
read_in_beesting-Reads zero outer st h e =
    by_test (Reads st) (next_is (is_code 123) st.rest) _ _ (λ _. counted 0 outer st e 1 h)
      (λ _.
        by_test (Reads st) (next_is (is_code 125) st.rest) _ _ (closed 0 outer st e)
          (λ _. read_raw-Reads st h))
read_in_beesting-Reads (suc n) outer st h e =
    by_test (Reads st) (next_is (is_code 123) st.rest) _ _
      (λ _. counted (suc n) outer st e (suc (suc n)) h)
      (λ _.
        by_test (Reads st) (next_is (is_code 125) st.rest) _ _ (λ _. counted (suc n) outer st e n h)
          (λ _. read_raw-Reads st h))

read_other-Reads :
    (stack : List ℕ) (st : Lexer)
    → is_empty st.rest ≡ false
    → st.beesting_stack ≡ stack
    → Reads st (read_other stack st)
unfolding read_other
read_other-Reads [] st h e = read_raw-Reads st h
read_other-Reads (n ∷ outer) st h e = read_in_beesting-Reads n outer st h e

read_word-Reads : (st : Lexer) → is_empty st.rest ≡ false → Reads st (read_word st)
unfolding read_word
read_word-Reads st h =
    by_test (Reads st) (next_is is_digit st.rest || starts_fraction st.rest) _ _
      (read_number-Reads st)
      (λ _.
        by_test (Reads st) (next_is (is_code 34) st.rest) _ _ (λ _. read_string-Reads st h)
          (λ _.
            by_test (Reads st) (take 3 st.rest == "re#") _ _ (λ _. read_regexp-Reads st h)
              (λ _. by_test (Reads st) (take 2 st.rest == "<<") _ _ (read_chevron-Reads st) (λ _.
                by_test (Reads st) (next_is starts_symbol st.rest) _ _ (read_symbol-Reads st)
                  (λ _. read_other-Reads st.beesting_stack st h refl)))))

read_slash-Reads : (st : Lexer) → next_is (is_code 47) st.rest ≡ true → Reads st (read_slash st)
unfolding read_slash
read_slash-Reads st h =
    let some_left = next_is-nonempty (is_code 47) st.rest h in
    by_test (Reads st) (st.peek == "/") _ _ (λ _. read_line_comment-Reads st h)
      (λ _.
        by_test (Reads st) (st.peek == "*") _ _ (λ _. read_block_comment-Reads st some_left)
          (λ _. read_word-Reads st some_left))

pub read_token-Reads : (st : Lexer) → is_empty st.rest ≡ false → Reads st (read_token st)
unfolding read_token
read_token-Reads st h =
    by_test (Reads st) (next_is is_space st.rest) _ _ (read_space-Reads st) (λ _.
      by_test (Reads st) (next_is (is_code 47) st.rest) _ _
        (λ k. peeked (take 1 (drop 1 st.rest)) (read_slash-Reads _ k)) (λ _. read_word-Reads st h))

-- With fuel for the rest's length, the loop takes steps to the end of the source.
pub loop-Steps :
    (fuel : ℕ) (st : Lexer)
    → count st.rest ≤ fuel
    → Steps st (loop fuel st) × ((loop fuel st).rest ≡ "")
unfolding loop
loop-Steps zero st h = (stay, length-eq-zero_iff.0 (omega arith))
loop-Steps (suc fuel) st h = elim (Bool-cases (is_empty st.rest)) [
  | inl e ↦ rw (loop, e) (stay, empty-eq st.rest e)
  | inr e ↦
      let (steps, less) = read_token-Reads st e in
      let (more, ends) = loop-Steps fuel (read_token st) (omega arith) in
      rw (loop, e) (Steps-trans steps more, ends)
]
