-- ===== src/Lexer/Branches.antt =====
-- krl-parser/src/tokenizer.ts: each branch of the main loop is steps, and reads a character.
use Prim.Native.String.{◌++◌}
use text.Mathlib.TextLemmas.{nil-append}
use pico_engine.Base.{
  String, ◌==◌, ◌≡◌, refl, ap, ◌∙◌, sym, ◌⊎◌, inl, inr, true, false, if◌then◌else◌, none, arith,
}
use pico_engine.Lexer.Scan.{take, drop, ends_chevron, chevron_text, Peeked}
use pico_engine.Lexer.State.{Lexer, push_tok, emit, chevron_string, chevron_close}
use pico_engine.Lexer.Step.{is_empty, end_chevron, handle_chevron_body}
use pico_engine.Lexer.Buffers.{starts, chevron_text-joins, chevron_text-stops, Stopped}
use pico_engine.Lexer.Moves.{
  opens, opens_past, closes_past, Steps, stay, move, Steps-trans, by_test, reads, peeks,
}
use pico_engine.Lexer.Texts.{ends_in_gap}

-- The end of the source, behind a gap or with `peek` other than the two texts that end the
-- chevron's own, or one of these.
abbrev AtEnd : Lexer → Type 0
AtEnd st =
    ((st.rest ≡ "") × ((ends_in_gap st.tokens ≡ true) ⊎ (ends_chevron st.peek ≡ false)))
    ⊎ ((st.peek ≡ take 2 st.rest) × (ends_chevron st.peek ≡ true))

gap_of_end :
    (st : Lexer)
    → (ends_in_gap st.tokens ≡ true) ⊎ (ends_chevron st.peek ≡ false)
    → ends_chevron st.peek ≡ true
    → ends_in_gap st.tokens ≡ true
gap_of_end st (inl g) h = g
gap_of_end st (inr k) h = cc

starts_peeked :
    (t : String) (st : Lexer)
    → (st.peek ≡ take 2 st.rest)
    → (st.peek == t) ≡ true
    → t ++ drop 2 st.rest ≡ st.rest
starts_peeked t st e h = starts t st.rest 2 (rw (← e) h)

end_chevron-Steps : (st : Lexer) → AtEnd st → Steps st (end_chevron st)
unfolding end_chevron
end_chevron-Steps st (inl (e, g)) =
    by_test (Steps st) (st.peek == "#{") _ _
      (λ h. move (opens_past (drop 2 st.rest) e (ap (drop 2) e) (gap_of_end st g (rw h refl))) stay)
      (λ h.
        by_test (Steps st) (st.peek == ">>") _ _
          (λ k.
            move (closes_past (drop 2 st.rest) e (ap (drop 2) e) (gap_of_end st g (rw (h, k) refl)))
              stay)
          (λ _. move (peeks st.peek (drop 2 st.rest) (ap (drop 2) e ∙ sym e)) stay))
end_chevron-Steps st (inr (e, k)) =
    by_test (Steps st) (st.peek == "#{") _ _
      (λ h. move (opens (drop 2 st.rest) (starts_peeked "#{" st e h)) stay)
      (λ h.
        by_test (Steps st) (st.peek == ">>") _ _
          (λ g.
            move
              (reads ">>" chevron_close none (drop 2 st.rest) (starts_peeked ">>" st e g) refl refl)
              stay)
          (λ g. absurd (ground (arith, h, g, k))))

-- The text of a chevron, pushed when there is any.
abbrev text_pushed : String → String → String → Lexer → Lexer
text_pushed buff rest peek st =
    let seen = record st { peek = peek; rest = rest } in
    if is_empty buff then seen else emit buff chevron_string none rest seen

pub empty-eq : (s : String) → is_empty s ≡ true → s ≡ ""
empty-eq String.[] h = refl
empty-eq (String.◌∷◌ c s) h = cc

text_pushed-Steps :
    (buff rest peek : String) (st : Lexer)
    → buff ++ rest ≡ st.rest
    → Steps st (text_pushed buff rest peek st)
unfolding emit push_tok
text_pushed-Steps buff rest peek st e =
    by_test (Steps st) (is_empty buff) _ _
      (λ h.
        move
          (peeks peek rest
            (sym (nil-append rest) ∙ ap (λ b. b ++ rest) (sym (empty-eq buff h)) ∙ e))
          stay)
      (λ h.
        move (peeks peek st.rest refl) (move (reads buff chevron_string none rest e h refl) stay))

text_pushed-AtEnd :
    (r : Peeked) (st : Lexer)
    → ends_in_gap st.tokens ≡ true
    → ((st.rest ≡ "") × (r ≡ record { buff = ""; rest = ""; peek = st.peek })) ⊎ Stopped r
    → AtEnd (text_pushed r.buff r.rest r.peek st)
unfolding emit push_tok
text_pushed-AtEnd r st g (inl (_, e)) = rw e (inl (refl, inl g))
text_pushed-AtEnd r st g (inr (inl (e, k))) =
    by_test AtEnd (is_empty r.buff) _ _ (λ _. inl (e, inr k)) (λ _. inl (e, inr k))
text_pushed-AtEnd r st g (inr (inr h)) =
    by_test AtEnd (is_empty r.buff) _ _ (λ _. inr h) (λ _. inr h)

pub handle_chevron_body-Steps :
    (st : Lexer) → ends_in_gap st.tokens ≡ true → Steps st (handle_chevron_body st)
unfolding handle_chevron_body
handle_chevron_body-Steps st g =
    let body = chevron_text false st.peek st.rest in
    Steps-trans
      (text_pushed-Steps body.buff body.rest body.peek st
        (chevron_text-joins false st.peek st.rest))
      (end_chevron-Steps (text_pushed body.buff body.rest body.peek st)
        (text_pushed-AtEnd body st g (chevron_text-stops false st.peek st.rest)))
