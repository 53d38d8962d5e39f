-- ===== src/Lexer/Moves.antt =====
-- krl-parser/src/tokenizer.ts: the lexer's steps as a relation, and that each branch of the main
-- loop takes such steps and reads at least one character.
use Prim.Native.String.{◌++◌, count}
use text.Mathlib.TextLemmas.{length-append, length-cons}
use pico_engine.Base.{
  ℕ, ◌<◌, ◌≤◌, String, ◌≡◌, refl, ap, Bool, true, false, if◌then◌else◌, Option, none, List, ◌∷◌,
  arith,
}
use pico_engine.Lexer.State.{
  TokenType, Lexer, push_tok, emit, chevron_beesting_open, chevron_beesting_close, chevron_close,
}
use pico_engine.Lexer.Step.{is_empty}
use pico_engine.Lexer.Texts.{ends_in_gap}

-- The types whose push leaves the stack of beestings alone.
abbrev pub is_plain : TokenType → Bool
is_plain chevron_beesting_open = false
is_plain chevron_beesting_close = false
is_plain _ = true

-- One step: a token read, a beesting opened or closed, a curly counted, `peek` set, or one of
-- the two pushes at the end of the source that read nothing.
pub data Step : Lexer → Lexer → Type 0 where
  reads :
      {st : Lexer} (value : String) (type : TokenType) (missing : Option String) (rest : String)
      → value ++ rest ≡ st.rest
      → is_empty value ≡ false
      → is_plain type ≡ true
      → Step st (emit value type missing rest st)
  opens :
      {st : Lexer} (rest : String)
      → "#{" ++ rest ≡ st.rest
      → Step st (record (emit "#{" chevron_beesting_open none rest st) {
        beesting_stack = 0 ∷ st.beesting_stack;
      })
  closes :
      {st : Lexer} (rest : String) (count : ℕ) (outer : List ℕ)
      → "}" ++ rest ≡ st.rest
      → st.beesting_stack ≡ count ∷ outer
      → Step st (record (emit "}" chevron_beesting_close none rest st) { beesting_stack = outer })
  counts :
      {st : Lexer} (before after : ℕ) (outer : List ℕ)
      → st.beesting_stack ≡ before ∷ outer
      → Step st (record st { beesting_stack = after ∷ outer })
  peeks :
      {st : Lexer} (peek rest : String)
      → rest ≡ st.rest
      → Step st (record st { peek = peek; rest = rest })
  opens_past :
      {st : Lexer} (rest : String)
      → st.rest ≡ ""
      → rest ≡ ""
      → ends_in_gap st.tokens ≡ true
      → Step st (record (emit "#{" chevron_beesting_open none rest st) {
        beesting_stack = 0 ∷ st.beesting_stack;
      })
  closes_past :
      {st : Lexer} (rest : String)
      → st.rest ≡ ""
      → rest ≡ ""
      → ends_in_gap st.tokens ≡ true
      → Step st (emit ">>" chevron_close none rest st)

pub data Steps : Lexer → Lexer → Type 0 where
  stay : {st : Lexer} → Steps st st
  move : {st mid end : Lexer} → Step st mid → Steps mid end → Steps st end

pub Steps-trans : {a b c : Lexer} → Steps a b → Steps b c → Steps a c
Steps-trans stay k = k
Steps-trans (move s h) k = move s (Steps-trans h k)

pub longer : (v r s : String) → v ++ r ≡ s → is_empty v ≡ false → count r < count s
longer String.[] r s e h = cc
longer (String.◌∷◌ c v) r s e h =
    omega (arith, length-append (String.◌∷◌ c v) r, length-cons c v, ap count e)

Step-le : {a b : Lexer} → Step a b → count b.rest ≤ count a.rest
unfolding emit push_tok
Step-le (reads v t m r e h p) = omega (arith, longer v r _ e h)
Step-le (opens r e) = omega (arith, longer "#{" r _ e refl)
Step-le (closes r n o e s) = omega (arith, longer "}" r _ e refl)
Step-le (counts n m o s) = omega arith
Step-le (peeks p r e) = omega (arith, ap count e)
Step-le (opens_past r e k g) = omega (arith, ap count e, ap count k)
Step-le (closes_past r e k g) = omega (arith, ap count e, ap count k)

pub Steps-le : {a b : Lexer} → Steps a b → count b.rest ≤ count a.rest
Steps-le stay = omega arith
Steps-le (move s h) = omega (arith, Step-le s, Steps-le h)

-- Steps that leave less to read.
abbrev pub Reads : Lexer → Lexer → Type 0
Reads a b = Steps a b × (count b.rest < count a.rest)

pub Reads-then : {a b c : Lexer} → Reads a b → Steps b c → Reads a c
Reads-then (h, l) k = (Steps-trans h k, omega (arith, Steps-le k))

pub peeked : {st c : Lexer} (p : String) → Reads (record st { peek = p }) c → Reads st c
peeked {st = st} p (h, l) = (move (peeks p st.rest refl) h, l)

pub Reads-emit :
    (value : String) (type : TokenType) (missing : Option String) (rest : String) (st : Lexer)
    → value ++ rest ≡ st.rest
    → is_empty value ≡ false
    → is_plain type ≡ true
    → Reads st (emit value type missing rest st)
unfolding emit
Reads-emit v t m r st e h p = (move (reads v t m r e h p) stay, longer v r st.rest e h)

-- A property of both branches, each under its test.
pub by_test :
    {A : Type 0} (P : A → Type 0) (b : Bool) (x y : A)
    → (b ≡ true → P x)
    → (b ≡ false → P y)
    → P (if b then x else y)
by_test P true x y h k = h refl
by_test P false x y h k = k refl
