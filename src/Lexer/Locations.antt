-- ===== src/Lexer/Locations.antt =====
-- krl-parser/src/tokenizer.ts: the tokens' places, and the fuel of the main loop.
use Prim.Native.String.{count}
use text.Mathlib.TextLemmas.{length-append, length-nil, length-cons, length-eq-zero_iff}
use pico_engine.Base.{
  ℕ, zero, suc, ◌+◌, ◌≤◌, ◌<◌, String, ◌≡◌, refl, ap, subst, sym, true, false, Bool-cases, inl, inr,
  List, [], ◌∷◌, ◌++◌, arith,
}
use pico_engine.Lexer.State.{Token, Lexer, start, push_tok, emit}
use pico_engine.Lexer.Step.{is_empty, loop, read_token, tokenizer}
use pico_engine.Lexer.Texts.{joined_src}
use pico_engine.Lexer.Moves.{Step, reads, opens, closes, counts, peeks, opens_past, closes_past}
use pico_engine.Lexer.Loop.{loop-Steps, read_token-Reads}
use pico_engine.Lexer.Source.{Steps-keep}

-- Each token begins where the one before it ended, is as long as its source, and is not empty.
abbrev pub Tiles : ℕ → List Token → ℕ → Type 0
Tiles n [] m = n ≡ m
Tiles n (t ∷ ts) m = (t.start ≡ n) × (t.end ≡ n + count t.src) × (n < t.end) × Tiles t.end ts m

Tiles-snoc :
    (n m : ℕ) (ts : List Token) (t : Token)
    → Tiles n ts m
    → t.start ≡ m
    → t.end ≡ m + count t.src
    → m < t.end
    → Tiles n (ts ++ (t ∷ [])) t.end
Tiles-snoc n m [] t h e k l = (omega arith, omega arith, omega arith, refl)
Tiles-snoc n m (u ∷ ts) t (a, b, c, h) e k l = (a, b, c, Tiles-snoc u.end m ts t h e k l)

Tiles-length : (n m : ℕ) (ts : List Token) → Tiles n ts m → n + count (joined_src ts) ≡ m
unfolding joined_src
Tiles-length n m [] h = omega (arith, length-nil)
Tiles-length n m (t ∷ ts) (a, b, c, h) =
    omega (arith, length-append t.src (joined_src ts), Tiles-length t.end m ts h)

nonempty-count : (s : String) → is_empty s ≡ false → 0 < count s
nonempty-count String.[] h = cc
nonempty-count (String.◌∷◌ c s) h = omega (arith, length-cons c s)

abbrev Placed : Lexer → Type 0
Placed st = Tiles 0 st.tokens st.next_index

placed :
    (a : Lexer) (t : Token)
    → t.start ≡ a.next_index
    → t.end ≡ a.next_index + count t.src
    → is_empty t.src ≡ false
    → Placed a
    → Tiles 0 (a.tokens ++ (t ∷ [])) t.end
placed a t e k h p =
    Tiles-snoc 0 a.next_index a.tokens t p e k (omega (arith, nonempty-count t.src h))

Step-Placed : (a b : Lexer) → Step a b → Placed a → Placed b
unfolding emit push_tok
Step-Placed a b (reads v t m r e h q) p = placed a _ refl refl h p
Step-Placed a b (opens r e) p = placed a _ refl refl refl p
Step-Placed a b (closes r n o e s) p = placed a _ refl refl refl p
Step-Placed a b (counts n m o s) p = p
Step-Placed a b (peeks q r e) p = p
Step-Placed a b (opens_past r e d g) p = placed a _ refl refl refl p
Step-Placed a b (closes_past r e d g) p = placed a _ refl refl refl p

-- The locations of the tokens follow one another without a gap, from 0 to the length of the
-- tokens' joined sources: each is as long as its token's source, which is not empty.
pub tokenizer-Tiles : (src : String) → Tiles 0 (tokenizer src) (count (joined_src (tokenizer src)))
unfolding tokenizer start
tokenizer-Tiles src =
    let (steps, _) = loop-Steps (count src) (start src) (omega arith) in
    let h = Steps-keep Placed Step-Placed (start src) _ steps refl in
    subst (Tiles 0 (tokenizer src)) (omega (arith, Tiles-length 0 _ _ h)) h

loop_done : (fuel : ℕ) (st : Lexer) → is_empty st.rest ≡ true → loop fuel st ≡ st
unfolding loop
loop_done zero st h = refl
loop_done (suc fuel) st h = rw (loop, h) refl

loop-fuel : (n m : ℕ) (st : Lexer) → count st.rest ≤ n → count st.rest ≤ m → loop n st ≡ loop m st
unfolding loop
loop-fuel zero m st h k = sym (loop_done m st (ap is_empty (length-eq-zero_iff.0 (omega arith))))
loop-fuel (suc n) zero st h k =
    loop_done (suc n) st (ap is_empty (length-eq-zero_iff.0 (omega arith)))
loop-fuel (suc n) (suc m) st h k = elim (Bool-cases (is_empty st.rest)) [
  | inl e ↦ rw (loop, e) refl
  | inr e ↦
      let (_, less) = read_token-Reads st e in
      rw (loop, e) (loop-fuel n m (read_token st) (omega arith) (omega arith))
]

-- The main loop ends: with fuel for the source's length it stands at the end of the source, and
-- more fuel gives the same tokens.
pub loop_ends :
    (src : String) (fuel : ℕ)
    → count src ≤ fuel
    → ((loop fuel (start src)).rest ≡ "") × ((loop fuel (start src)).tokens ≡ tokenizer src)
unfolding tokenizer start
loop_ends src fuel h = (
  (loop-Steps fuel (start src) h).1,
  ap (λ st. st.tokens) (loop-fuel fuel (count src) (start src) h (omega arith)),
)
