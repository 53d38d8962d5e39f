-- ===== src/Lexer/Source.antt =====
-- krl-parser/src/tokenizer.ts: the tokens hold the source text, place by place.
use Prim.Native.String
use Prim.Native.String.{count}
use text.Mathlib.TextLemmas.{append_assoc, append-nil, nil-append, append-eq-nil_iff}
use pico_engine.Base.{
  String, ◌≡◌, refl, ap, ◌∙◌, sym, ◌⊎◌, inl, inr, true, false, List, [], ◌∷◌, ◌++◌, arith, In,
}
use pico_engine.Lexer.State.{Token, Lexer, start, push_tok, emit}
use pico_engine.Lexer.Step.{is_empty, tokenizer}
use pico_engine.Lexer.Texts.{joined_src, joined_src-snoc, is_gap, ends_in_gap, ends_in_gap-snoc}
use pico_engine.Lexer.Moves.{
  Step, reads, opens, closes, counts, peeks, opens_past, closes_past, Steps, stay, move,
}
use pico_engine.Lexer.Loop.{loop-Steps}

-- An invariant that each step keeps.
pub Steps-keep {κ} :
    (P : Lexer → Type κ)
    → ((a b : Lexer) → Step a b → P a → P b)
    → (a b : Lexer) → Steps a b
    → P a
    → P b
Steps-keep P keep a b stay h = h
Steps-keep P keep a b (move {mid = m} s k) h = Steps-keep P keep m b k (keep a m s h)

-- One more token than the source has: `#{` or `>>` behind a `<<` or a beesting's `}` that ends it.
pub record IsPast (src : String) (tokens : List Token) : Type 0 where
  pub read : List Token
  pub last : Token
  pub split : tokens ≡ read ++ (last ∷ [])
  pub joins : joined_src read ≡ src
  pub behind_gap : ends_in_gap read ≡ true
  pub last_src : In last.src ("#{" ∷ ">>" ∷ [])
  pub last_type : is_gap last.type ≡ false

module _ (src : String) where
  abbrev Kept : Lexer → Type 0
  Kept st =
      (String.◌++◌ (joined_src st.tokens) st.rest ≡ src) ⊎ ((st.rest ≡ "") × IsPast src st.tokens)

  nothing_left : (v r s : String) → String.◌++◌ v r ≡ s → s ≡ "" → is_empty v ≡ false → ⊥
  nothing_left v r s e k h = ground (arith, h, ap is_empty (append-eq-nil_iff.0 (e ∙ k)).0)

  not_again : (ts : List Token) → IsPast src ts → ends_in_gap ts ≡ true → ⊥
  not_again ts p g =
      ground (arith, p.last_type, ends_in_gap-snoc p.read p.last, ap ends_in_gap p.split, g)

  pushed :
      (ts : List Token) (t : Token) (r s : String)
      → String.◌++◌ t.src r ≡ s
      → String.◌++◌ (joined_src ts) s ≡ src
      → String.◌++◌ (joined_src (ts ++ (t ∷ []))) r ≡ src
  pushed ts t r s e k =
      ap (λ x. String.◌++◌ x r) (joined_src-snoc ts t)
      ∙ append_assoc (joined_src ts) t.src r
      ∙ ap (String.◌++◌ (joined_src ts)) e
      ∙ k

  past :
      (ts : List Token) (t : Token) (s : String)
      → s ≡ ""
      → ends_in_gap ts ≡ true
      → In t.src ("#{" ∷ ">>" ∷ [])
      → is_gap t.type ≡ false
      → String.◌++◌ (joined_src ts) s ≡ src
      → IsPast src (ts ++ (t ∷ []))
  past ts t s e g i k h = record {
    read = ts;
    last = t;
    split = refl;
    joins = sym (append-nil (joined_src ts)) ∙ ap (String.◌++◌ (joined_src ts)) (sym e) ∙ h;
    behind_gap = g;
    last_src = i;
    last_type = k;
  }

  Step-Kept : (a b : Lexer) → Step a b → Kept a → Kept b
  unfolding emit push_tok
  Step-Kept a b (reads v t m r e h p) (inl k) = inl (pushed a.tokens _ r a.rest e k)
  Step-Kept a b (reads v t m r e h p) (inr (d, k)) = absurd (nothing_left v r a.rest e d h)
  Step-Kept a b (opens r e) (inl k) = inl (pushed a.tokens _ r a.rest e k)
  Step-Kept a b (opens r e) (inr (d, k)) = absurd (nothing_left "#{" r a.rest e d refl)
  Step-Kept a b (closes r n o e s) (inl k) = inl (pushed a.tokens _ r a.rest e k)
  Step-Kept a b (closes r n o e s) (inr (d, k)) = absurd (nothing_left "}" r a.rest e d refl)
  Step-Kept a b (counts n m o s) k = k
  Step-Kept a b (peeks p r e) (inl k) = inl (ap (String.◌++◌ (joined_src a.tokens)) e ∙ k)
  Step-Kept a b (peeks p r e) (inr (d, k)) = inr (e ∙ d, k)
  Step-Kept a b (opens_past r e d g) (inl k) = inr (d, past a.tokens _ a.rest e g (inl refl) refl k)
  Step-Kept a b (opens_past r e d g) (inr (_, k)) = absurd (not_again a.tokens k g)
  Step-Kept a b (closes_past r e d g) (inl k) =
      inr (d, past a.tokens _ a.rest e g (inr (inl refl)) refl k)
  Step-Kept a b (closes_past r e d g) (inr (_, k)) = absurd (not_again a.tokens k g)

-- The sources of the tokens, joined, are the source text; or the text ends right behind a `<<` or
-- a beesting's `}`, and there is one more token, a `#{` or a `>>`, that the text does not have.
pub tokenizer-joins :
    (src : String) → (joined_src (tokenizer src) ≡ src) ⊎ IsPast src (tokenizer src)
unfolding tokenizer start joined_src
tokenizer-joins src =
    let (steps, ends) = loop-Steps (count src) (start src) (omega arith) in
    elim (Steps-keep (Kept src) (Step-Kept src) (start src) _ steps (inl (nil-append src))) [
      | inl h ↦ inl (sym (append-nil _) ∙ ap (String.◌++◌ _) (sym ends) ∙ h)
      | inr (_, h) ↦ inr h
    ]
