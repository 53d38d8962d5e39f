-- ===== src/Lexer/Beestings.antt =====
-- krl-parser/src/tokenizer.ts: the beestings of the chevron strings, opened and closed.
use Prim.Native.String.{count}
use pico_engine.Base.{
  ℕ, zero, suc, String, ◌≡◌, refl, ap, ◌∙◌, true, Option, none, some, Option-cases, inl, inr, List,
  [], ◌∷◌, ◌++◌, arith, length,
}
use pico_engine.Lexer.State.{
  TokenType, Token, Lexer, start, push_tok, emit, chevron_beesting_open, chevron_beesting_close,
}
use pico_engine.Lexer.Step.{tokenizer}
use pico_engine.Lexer.Moves.{
  is_plain, Step, reads, opens, closes, counts, peeks, opens_past, closes_past,
}
use pico_engine.Lexer.Loop.{loop-Steps}
use pico_engine.Lexer.Source.{Steps-keep}

-- How many beestings are open behind a token, from the number before it; none where the token
-- closes one and none is open.
abbrev pub open_behind : TokenType → ℕ → Option ℕ
open_behind chevron_beesting_open n = some (suc n)
open_behind chevron_beesting_close zero = none
open_behind chevron_beesting_close (suc n) = some n
open_behind _ n = some n

abbrev pub open_beestings : ℕ → List Token → Option ℕ
open_beestings n [] = some n
open_beestings n (t ∷ ts) = elim (open_behind t.type n) [
  | none ↦ none
  | some m ↦ open_beestings m ts
]

open_beestings-snoc :
    (n m k : ℕ) (ts : List Token) (t : Token)
    → open_beestings n ts ≡ some m
    → open_behind t.type m ≡ some k
    → open_beestings n (ts ++ (t ∷ [])) ≡ some k
open_beestings-snoc n m k [] t h e = ground (arith, h, e)
open_beestings-snoc n m k (u ∷ ts) t h e = elim (Option-cases (open_behind u.type n)) [
  | inl f ↦ absurd (ground (arith, rw (open_beestings, f) at h))
  | inr (j, f) ↦
      rw (open_beestings, f) (open_beestings-snoc j m k ts t (rw (open_beestings, f) at h) e)
]

abbrev Nested : Lexer → Type 0
Nested st = open_beestings 0 st.tokens ≡ some (length st.beesting_stack)

plain : (type : TokenType) (n : ℕ) → is_plain type ≡ true → open_behind type n ≡ some n
plain type n h = ground arith

Step-Nested : (a b : Lexer) → Step a b → Nested a → Nested b
unfolding emit push_tok
Step-Nested a b (reads v t m r e h q) p = open_beestings-snoc 0 _ _ a.tokens _ p (plain t _ q)
Step-Nested a b (opens r e) p = open_beestings-snoc 0 _ _ a.tokens _ p refl
Step-Nested a b (closes r n o e s) p =
    open_beestings-snoc 0 _ _ a.tokens _ (p ∙ ap (λ l. some (length l)) s) refl
Step-Nested a b (counts n m o s) p = p ∙ ap (λ l. some (length l)) s
Step-Nested a b (peeks q r e) p = p
Step-Nested a b (opens_past r e d g) p = open_beestings-snoc 0 _ _ a.tokens _ p refl
Step-Nested a b (closes_past r e d g) p = open_beestings-snoc 0 _ _ a.tokens _ p refl

-- A token that closes a beesting always stands behind one that opened it: read from the left, no
-- more are closed than were opened.
pub tokenizer-nests : (src : String) → (n : ℕ) × (open_beestings 0 (tokenizer src) ≡ some n)
unfolding tokenizer start
tokenizer-nests src =
    let (steps, _) = loop-Steps (count src) (start src) (omega arith) in
    (_, Steps-keep Nested Step-Nested (start src) _ steps refl)
