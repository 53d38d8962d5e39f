-- ===== src/Lexer/Texts.antt =====
-- krl-parser/src/tokenizer.ts: the text of a list of tokens, and how the list ends.
use text.Mathlib.TextLemmas.{append_assoc, append-nil, nil-append}
use pico_engine.Base.{String, ◌≡◌, refl, ap, ◌∙◌, sym, Bool, true, false, List, [], ◌∷◌, ◌++◌}
use Prim.Native.String
use pico_engine.Lexer.State.{TokenType, Token, chevron_open, chevron_beesting_close}

-- The tokens' sources, one after another.
unfoldable pub joined_src : List Token → String
joined_src [] = ""
joined_src (t ∷ ts) = String.◌++◌ t.src (joined_src ts)

pub joined_src-snoc :
    (ts : List Token) (t : Token) → joined_src (ts ++ (t ∷ [])) ≡ String.◌++◌ (joined_src ts) t.src
unfolding joined_src
joined_src-snoc [] t = append-nil t.src ∙ sym (nil-append t.src)
joined_src-snoc (u ∷ ts) t =
    ap (String.◌++◌ u.src) (joined_src-snoc ts t) ∙ sym (append_assoc u.src (joined_src ts) t.src)

-- The tokens behind which handleChevronBody reads.
abbrev pub is_gap : TokenType → Bool
is_gap chevron_open = true
is_gap chevron_beesting_close = true
is_gap _ = false

unfoldable pub ends_in_gap : List Token → Bool
ends_in_gap [] = false
ends_in_gap (t ∷ []) = is_gap t.type
ends_in_gap (t ∷ u ∷ ts) = ends_in_gap (u ∷ ts)

pub ends_in_gap-snoc : (ts : List Token) (t : Token) → ends_in_gap (ts ++ (t ∷ [])) ≡ is_gap t.type
unfolding ends_in_gap
ends_in_gap-snoc [] t = refl
ends_in_gap-snoc (u ∷ []) t = refl
ends_in_gap-snoc (u ∷ v ∷ ts) t = ends_in_gap-snoc (v ∷ ts) t
