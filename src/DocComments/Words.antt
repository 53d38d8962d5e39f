-- ===== src/DocComments/Words.antt =====
-- krl-parser/src/docComment.ts: splitRest takes a line of words apart.
use Prim.Native.Char.{Char}
use Prim.Native.String.{◌++◌}
use text.Mathlib.TextLemmas.{cons-append, nil-append}
use pico_engine.Base.{ℕ, suc, String, Bool, true, false, not, ◌&&◌, ◌≡◌, refl, ap, ◌∙◌, ◌∷◌, arith}
use pico_engine.Generate.{trim, trim_start, trim_end, all_space, is_space, is_code}
use pico_engine.DocComments.Split.{quoted, parse_quoted_string, word_of, behind_word, split_loop}

abbrev pub no_space : String → Bool
no_space String.[] = true
no_space (String.◌∷◌ c s) = not (is_space c) && no_space s

-- Not empty, without white space, and not starting with a quote.
abbrev pub is_word : String → Bool
is_word String.[] = false
is_word (String.◌∷◌ c s) = not (is_code 34 c) && no_space (String.◌∷◌ c s)

all_space-append : (s t : String) → all_space (s ++ t) ≡ (all_space s && all_space t)
unfolding all_space
all_space-append String.[] t = ap all_space (nil-append t)
all_space-append (String.◌∷◌ c s) t =
    ap all_space (cons-append c s t) ∙ ground (arith, all_space-append s t)

kept_end :
    (c : Char) (s : String)
    → (is_space c && all_space s) ≡ false
    → trim_end s ≡ s
    → trim_end (String.◌∷◌ c s) ≡ String.◌∷◌ c s
unfolding trim_end all_space
kept_end c s h e = rw h (ap (String.◌∷◌ c) e)

-- A text that ends with no white space keeps its end.
trim_end-append : (s t : String) → all_space t ≡ false → trim_end t ≡ t → trim_end (s ++ t) ≡ s ++ t
unfolding trim_end
trim_end-append String.[] t h e = rw (nil-append t) e
trim_end-append (String.◌∷◌ c s) t h e =
    let full : (is_space c && all_space (s ++ t)) ≡ false =
      ground (arith, all_space-append s t, h) in
    rw (cons-append c s t) (kept_end c (s ++ t) full (trim_end-append s t h e))

word_end : (w : String) → no_space w ≡ true → trim_end w ≡ w
unfolding trim_end all_space
word_end String.[] h = refl
word_end (String.◌∷◌ c w) h = ground (arith, h, word_end w)

first_kept :
    (c : Char) (s : String) → is_space c ≡ false → trim_start (String.◌∷◌ c s) ≡ String.◌∷◌ c s
unfolding trim_start
first_kept c s h = rw h refl

word_more :
    (c : Char) (s : String)
    → is_space c ≡ false
    → word_of (String.◌∷◌ c s) ≡ String.◌∷◌ c (word_of s)
unfolding word_of
word_more c s h = rw h refl

behind_more :
    (c : Char) (s : String) → is_space c ≡ false → behind_word (String.◌∷◌ c s) ≡ behind_word s
unfolding behind_word
behind_more c s h = rw h refl

-- A text that starts and ends with no white space.
abbrev pub IsTight : String → Type 0
IsTight s = (trim_start s ≡ s) × (trim_end s ≡ s) × (all_space s ≡ false)

pub word-IsTight : (w : String) → is_word w ≡ true → IsTight w
unfolding all_space
word-IsTight String.[] h = cc
word-IsTight (String.◌∷◌ c w) h =
    let out : is_space c ≡ false = ground (arith, h) in
    let whole : no_space (String.◌∷◌ c w) ≡ true = ground (arith, h) in
    (first_kept c w out, word_end (String.◌∷◌ c w) whole, rw out refl)

spaced : (t : String) → " " ++ t ≡ String.◌∷◌ " " t
spaced t = cons-append " " "" t ∙ ap (String.◌∷◌ " ") (nil-append t)

pub append-IsTight : (v w : String) → is_word v ≡ true → IsTight w → IsTight (v ++ (" " ++ w))
append-IsTight String.[] w h (c, d, e) = cc
append-IsTight (String.◌∷◌ x v) w h (c, d, e) =
    let out : is_space x ≡ false = ground (arith, h) in
    let blank : all_space (" " ++ w) ≡ false = ground (arith, all_space-append " " w, e) in
    (
      rw (cons-append x v (" " ++ w)) (first_kept x (v ++ (" " ++ w)) out),
      trim_end-append (String.◌∷◌ x v) (" " ++ w) blank (trim_end-append " " w e d),
      ground (arith, all_space-append (String.◌∷◌ x v) (" " ++ w), blank),
    )

module _ (t : String) where
  pub word_of-word : (w : String) → no_space w ≡ true → word_of (w ++ (" " ++ t)) ≡ w
  unfolding word_of is_space
  word_of-word String.[] h = rw (nil-append (" " ++ t), spaced t) refl
  word_of-word (String.◌∷◌ c w) h =
      let out : is_space c ≡ false = ground (arith, h) in
      let later : no_space w ≡ true = ground (arith, h) in
      rw (cons-append c w (" " ++ t))
        (word_more c (w ++ (" " ++ t)) out ∙ ap (String.◌∷◌ c) (word_of-word w later))

  pub behind_word-word : (w : String) → no_space w ≡ true → behind_word (w ++ (" " ++ t)) ≡ " " ++ t
  unfolding behind_word is_space
  behind_word-word String.[] h = rw (nil-append (" " ++ t), spaced t) refl
  behind_word-word (String.◌∷◌ c w) h =
      let out : is_space c ≡ false = ground (arith, h) in
      let later : no_space w ≡ true = ground (arith, h) in
      rw (cons-append c w (" " ++ t))
        (behind_more c (w ++ (" " ++ t)) out ∙ behind_word-word w later)

pub word_of_all : (w : String) → no_space w ≡ true → (word_of w ≡ w) × (behind_word w ≡ "")
unfolding word_of behind_word
word_of_all String.[] h = (refl, refl)
word_of_all (String.◌∷◌ c w) h =
    let out : is_space c ≡ false = ground (arith, h) in
    let later : no_space w ≡ true = ground (arith, h) in
    let (a, b) = word_of_all w later in
    (word_more c w out ∙ ap (String.◌∷◌ c) a, behind_more c w out ∙ b)

pub trim-spaced : (t : String) → IsTight t → trim (" " ++ t) ≡ t
unfolding trim trim_start is_space
trim-spaced t (a, b, _) = rw (spaced t) (ap trim_end a ∙ b)

pub trim-IsTight : (t : String) → IsTight t → trim t ≡ t
unfolding trim
trim-IsTight t (a, b, _) = ap trim_end a ∙ b

-- A round of the loop at a word.
pub one_round :
    (fuel : ℕ) (c : Char) (s : String)
    → is_word (String.◌∷◌ c "") ≡ true
    → split_loop (suc fuel) (String.◌∷◌ c s)
      ≡ word_of (String.◌∷◌ c s) ∷ split_loop fuel (trim (behind_word (String.◌∷◌ c s)))
unfolding split_loop parse_quoted_string quoted
one_round fuel c s h =
    let out : is_space c ≡ false = ground (arith, h) in
    let plain : is_code 34 c ≡ false = ground (arith, h) in
    rw (split_loop, parse_quoted_string, first_kept c s out, quoted, plain, out) refl
