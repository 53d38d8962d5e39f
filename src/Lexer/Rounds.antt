-- ===== src/Lexer/Rounds.antt =====
-- krl-parser/src/tokenizer.ts: a round of the main loop is steps, and reads a character.
use Prim.Native.Char.{Char}
use Prim.Native.String.{◌++◌, count}
use text.Mathlib.TextLemmas.{append_assoc, cons-append, nil-append}
use pico_engine.Base.{
  ℕ, suc, String, ◌==◌, ◌≡◌, refl, ap, ◌∙◌, sym, inl, inr, Bool, true, false, not, ◌&&◌, ◌||◌,
  if◌then◌else◌, Bool-cases, Option-cases, none, some, List, [], ◌∷◌, arith,
}
use pico_engine.Generate.{is_space, is_code}
use pico_engine.Lexer.Scan.{
  longer_than, is_digit, starts_symbol, in_symbol, is_flag, take, drop, next_is, starts_fraction,
  add_to_buffer, run_of, raw_at, raw_toks,
}
use pico_engine.Lexer.State.{
  TokenType, Lexer, emit, white_space, line_comment, block_comment, symbol, number, string, regexp,
  raw, illegal, missing_close,
}
use pico_engine.Lexer.Step.{
  is_empty, read_space, read_line_comment, read_block_comment, read_number, read_string,
  read_regexp, read_symbol, read_raw,
}
use pico_engine.Lexer.Buffers.{
  take-drop, starts, starts_char, is_code-eq, run_of-none, add_to_buffer-joins, add_to_buffer-stops,
  add_to_buffer-starts, run_of-joins, run_of-starts, raw_at-starts,
}
use pico_engine.Lexer.Moves.{is_plain, Reads, Reads-emit, by_test}
use pico_engine.Lexer.Branches.{empty-eq}

joined : (v w r s : String) → v ++ r ≡ s → (t : String) → w ++ t ≡ r → (v ++ w) ++ t ≡ s
joined v w r s e t k = append_assoc v w t ∙ ap (λ x. v ++ x) k ∙ e

append-nonempty : (v w : String) → is_empty v ≡ false → is_empty (v ++ w) ≡ false
append-nonempty String.[] w h = cc
append-nonempty (String.◌∷◌ c v) w h = ap is_empty (cons-append c v w)

pub next_is-nonempty : (p : Char → Bool) (s : String) → next_is p s ≡ true → is_empty s ≡ false
next_is-nonempty p String.[] h = cc
next_is-nonempty p (String.◌∷◌ c s) h = refl

take-nonempty : (n : ℕ) (s : String) → is_empty s ≡ false → is_empty (take (suc n) s) ≡ false
take-nonempty n String.[] h = cc
take-nonempty n (String.◌∷◌ c s) h = refl

pub read_space-Reads : (st : Lexer) → next_is is_space st.rest ≡ true → Reads st (read_space st)
unfolding read_space
read_space-Reads st h =
    Reads-emit _ white_space none _ st (run_of-joins is_space st.rest)
      (run_of-starts is_space st.rest h) refl

pub read_symbol-Reads :
    (st : Lexer) → next_is starts_symbol st.rest ≡ true → Reads st (read_symbol st)
unfolding read_symbol
read_symbol-Reads st h =
    Reads-emit _ symbol none _ st (run_of-joins in_symbol st.rest)
      (run_of-starts in_symbol st.rest (in_of_starts st.rest h)) refl
  where
    in_of_starts : (s : String) → next_is starts_symbol s ≡ true → next_is in_symbol s ≡ true
    in_of_starts String.[] h = cc
    in_of_starts (String.◌∷◌ c s) h = rw h refl

pub read_line_comment-Reads :
    (st : Lexer) → next_is (is_code 47) st.rest ≡ true → Reads st (read_line_comment st)
unfolding read_line_comment
read_line_comment-Reads st h =
    let p : Char → Bool = λ c. not (is_code 10 c || is_code 13 c) in
    let run = run_of p st.rest in
    Reads-emit _ line_comment none _ st
      (joined run.buff (take 1 run.rest) run.rest st.rest (run_of-joins p st.rest) (drop 1 run.rest)
        (take-drop 1 run.rest))
      (append-nonempty run.buff _ (run_of-starts p st.rest (slash_kept st.rest h))) refl
  where
    slash_kept :
        (s : String)
        → next_is (is_code 47) s ≡ true
        → next_is (λ c. not (is_code 10 c || is_code 13 c)) s ≡ true
    slash_kept String.[] h = cc
    slash_kept (String.◌∷◌ c s) h = rw (← is_code-eq "/" c h) refl

-- A literal that a text closes, or the source's end.
literal-Reads :
    (stop : ℕ → String → Bool) (escaping : Bool) (close : String) (n : ℕ) (type : TokenType)
    (st : Lexer)
    → ((m : ℕ) (r : String) → stop m r ≡ true → close ++ drop n r ≡ r)
    → is_empty st.rest ≡ false
    → stop 0 st.rest ≡ false
    → is_plain type ≡ true
    → (let run = add_to_buffer stop escaping false 0 st.rest in
        Reads st (
          if is_empty run.rest
          then emit run.buff missing_close (some close) "" st
          else emit (run.buff ++ close) type none (drop n run.rest) st))
literal-Reads stop escaping close n type st ends h first plain =
    let run = add_to_buffer stop escaping false 0 st.rest in
    let joins = add_to_buffer-joins stop escaping false 0 st.rest in
    let some_read = add_to_buffer-starts stop escaping 0 st.rest h first in
    by_test (Reads st) (is_empty run.rest) _ _
      (λ e.
        Reads-emit run.buff missing_close (some close) "" st
          (ap (λ r. run.buff ++ r) (sym (empty-eq run.rest e)) ∙ joins) some_read refl)
      (λ e.
        Reads-emit (run.buff ++ close) type none (drop n run.rest) st
          (joined run.buff close run.rest st.rest joins (drop n run.rest)
            (elim (add_to_buffer-stops stop escaping false 0 st.rest) [
              | inl k ↦ absurd (ground (arith, e, k))
              | inr (m, k) ↦ ends m run.rest k
            ]))
          (append-nonempty run.buff close some_read) plain)

both : (a b : Bool) → (a && b) ≡ true → (a ≡ true) × (b ≡ true)
both true true h = (refl, refl)
both true false h = cc
both false b h = cc

no_short : (a b : Bool) → b ≡ false → (a && b) ≡ false
no_short true b h = h
no_short false b h = refl

pub read_block_comment-Reads :
    (st : Lexer) → is_empty st.rest ≡ false → Reads st (read_block_comment st)
unfolding read_block_comment
read_block_comment-Reads st h =
    literal-Reads (λ n r. (take 2 r == "*/") && longer_than 1 n) false "*/" 2 block_comment st
      (λ m r k. starts "*/" r 2 (both (take 2 r == "*/") (longer_than 1 m) k).0) h
      (no_short (take 2 st.rest == "*/") false refl) refl

pub read_string-Reads : (st : Lexer) → is_empty st.rest ≡ false → Reads st (read_string st)
unfolding read_string
read_string-Reads st h =
    literal-Reads (λ n r. next_is (is_code 34) r && longer_than 0 n) true "\"" 1 string st
      (λ m r k. starts_char "\"" r (both (next_is (is_code 34) r) (longer_than 0 m) k).0) h
      (no_short (next_is (is_code 34) st.rest) false refl) refl

pub read_regexp-Reads : (st : Lexer) → is_empty st.rest ≡ false → Reads st (read_regexp st)
unfolding read_regexp
read_regexp-Reads st h =
    let stop : ℕ → String → Bool = λ n r. next_is (is_code 35) r && longer_than 2 n in
    let run = add_to_buffer stop true false 0 st.rest in
    let joins = add_to_buffer-joins stop true false 0 st.rest in
    let some_read =
      add_to_buffer-starts stop true 0 st.rest h
        (no_short (next_is (is_code 35) st.rest) false refl) in
    let flags = run_of is_flag (drop 1 run.rest) in
    by_test (Reads st) (next_is (is_code 35) run.rest) _ _
      (λ e.
        Reads-emit (run.buff ++ ("#" ++ flags.buff)) regexp none flags.rest st
          (joined run.buff _ run.rest st.rest joins flags.rest (
            joined "#" flags.buff (drop 1 run.rest) run.rest (starts_char "#" run.rest e) flags.rest
              (run_of-joins is_flag (drop 1 run.rest))))
          (append-nonempty run.buff _ some_read) refl)
      (λ e. Reads-emit run.buff missing_close (some "#") run.rest st joins some_read refl)

fraction-dot : (s : String) → starts_fraction s ≡ true → next_is (is_code 46) s ≡ true
fraction-dot String.[] h = cc
fraction-dot (String.◌∷◌ c s) h = (both (is_code 46 c) (next_is is_digit s) h).0

append-nonempty_right : (v w : String) → is_empty w ≡ false → is_empty (v ++ w) ≡ false
append-nonempty_right String.[] w h = ap is_empty (nil-append w) ∙ h
append-nonempty_right (String.◌∷◌ c v) w h = ap is_empty (cons-append c v w)

pub read_number-Reads :
    (st : Lexer)
    → (next_is is_digit st.rest || starts_fraction st.rest) ≡ true
    → Reads st (read_number st)
unfolding read_number
read_number-Reads st h =
    let whole = run_of is_digit st.rest in
    let joins = run_of-joins is_digit st.rest in
    let fraction = run_of is_digit (drop 1 whole.rest) in
    by_test (Reads st) (starts_fraction whole.rest) _ _
      (λ e.
        Reads-emit (whole.buff ++ ("." ++ fraction.buff)) number none fraction.rest st
          (joined whole.buff _ whole.rest st.rest joins fraction.rest (
            joined "." fraction.buff (drop 1 whole.rest) whole.rest
              (starts_char "." whole.rest (fraction-dot whole.rest e)) fraction.rest
              (run_of-joins is_digit (drop 1 whole.rest))))
          (append-nonempty_right whole.buff _ (ap is_empty (cons-append "." "" fraction.buff)))
          refl)
      (λ e.
        Reads-emit whole.buff number none whole.rest st joins
          (elim (Bool-cases (next_is is_digit st.rest)) [
            | inl d ↦ run_of-starts is_digit st.rest d
            | inr d ↦
                absurd
                  (ground (arith, h, d, e, ap starts_fraction (run_of-none is_digit st.rest d)))
          ])
          refl)

abbrev none_empty : List String → Bool
none_empty [] = true
none_empty (t ∷ toks) = not (is_empty t) && none_empty toks

raw_at-nonempty :
    (toks : List String) (r tok : String)
    → none_empty toks ≡ true
    → raw_at toks r ≡ some tok
    → is_empty tok ≡ false
unfolding raw_at
raw_at-nonempty [] r tok h e = cc
raw_at-nonempty (t ∷ toks) r tok h e = elim (Bool-cases (t == take (count t) r)) [
  | inl k ↦ ground (arith, h, rw k at e)
  | inr k ↦ raw_at-nonempty toks r tok (both (not (is_empty t)) (none_empty toks) h).1 (rw k at e)
]

pub read_raw-Reads : (st : Lexer) → is_empty st.rest ≡ false → Reads st (read_raw st)
unfolding read_raw
read_raw-Reads st h = elim (Option-cases (raw_at raw_toks st.rest)) [
  | inl e ↦
      rw (read_raw, e)
        (Reads-emit (take 1 st.rest) illegal none (drop 1 st.rest) st (take-drop 1 st.rest)
          (take-nonempty 0 st.rest h) refl)
  | inr (tok, e) ↦
      rw (read_raw, e)
        (Reads-emit tok raw none (drop (count tok) st.rest) st
          (raw_at-starts raw_toks st.rest tok e) (raw_at-nonempty raw_toks st.rest tok refl e) refl)
]
