-- ===== src/DocComments/Quoting.antt =====
-- krl-parser/src/docComment.ts: a tag that is written out is read back.
use Prim.Native.String.{◌++◌, count}
use text.Mathlib.TextLemmas.{cons-append, length-append, length-cons}
use pico_engine.Base.{
  ℕ, zero, suc, ◌≤◌, String, Bool, true, false, not, ◌&&◌, ◌||◌, ◌==◌, ◌≡◌, refl, ap, sym, ◌∙◌, inl,
  inr, All, In, has, has→In, List, [], ◌∷◌, some, arith,
}
use pico_engine.Ast.{attr}
use pico_engine.Generate.{join, trim, is_space}
use pico_engine.Schema.Queries.{ok}
use pico_engine.DocComments.Split.{word_of, behind_word, split_loop, split_rest}
use pico_engine.DocComments.Words.{
  is_word, no_space, IsTight, append-IsTight, word-IsTight, word_of-word, behind_word-word,
  word_of_all, trim-spaced, trim-IsTight, one_round,
}
use pico_engine.DocComments.Tags.{
  type_names, description_of, type_of, optional_of, attr_from, parse_attr_tag,
}

-- Words, each without white space and not starting with a quote.
abbrev pub AreWords : List String → Type 0
AreWords = All (λ w. is_word w ≡ true)

join-IsTight : (w : String) (ws : List String) → AreWords (w ∷ ws) → IsTight (join " " (w ∷ ws))
unfolding join
join-IsTight w [] (h, _) = word-IsTight w h
join-IsTight w (v ∷ ws) (h, k) = append-IsTight w (join " " (v ∷ ws)) h (join-IsTight v ws k)

split_loop-nil : (fuel : ℕ) → split_loop fuel "" ≡ []
unfolding split_loop
split_loop-nil zero = refl
split_loop-nil (suc fuel) = refl

-- A word at the end of the text, and one before a space.
last_word : (fuel : ℕ) (w : String) → is_word w ≡ true → split_loop (suc fuel) w ≡ w ∷ []
unfolding trim
last_word fuel String.[] h = cc
last_word fuel (String.◌∷◌ c w) h =
    let first : is_word (String.◌∷◌ c "") ≡ true = ground (arith, h) in
    let whole : no_space (String.◌∷◌ c w) ≡ true = ground (arith, h) in
    let (a, b) = word_of_all (String.◌∷◌ c w) whole in
    one_round fuel c w first
    ∙ ap (λ x. x ∷ split_loop fuel (trim (behind_word (String.◌∷◌ c w)))) a
    ∙ ap (λ x. String.◌∷◌ c w ∷ split_loop fuel (trim x)) b
    ∙ ap (λ x. String.◌∷◌ c w ∷ x) (split_loop-nil fuel)

next_word :
    (fuel : ℕ) (w t : String)
    → is_word w ≡ true
    → IsTight t
    → split_loop (suc fuel) (w ++ (" " ++ t)) ≡ w ∷ split_loop fuel t
next_word fuel String.[] t h k = cc
next_word fuel (String.◌∷◌ c w) t h k =
    let first : is_word (String.◌∷◌ c "") ≡ true = ground (arith, h) in
    let whole : no_space (String.◌∷◌ c w) ≡ true = ground (arith, h) in
    let shape = cons-append c w (" " ++ t) in
    ap (split_loop (suc fuel)) shape
    ∙ one_round fuel c (w ++ (" " ++ t)) first
    ∙ ap (λ x. word_of x ∷ split_loop fuel (trim (behind_word x))) (sym shape)
    ∙ ap (λ x. x ∷ split_loop fuel (trim (behind_word (String.◌∷◌ c w ++ (" " ++ t)))))
        (word_of-word t (String.◌∷◌ c w) whole)
    ∙ ap (λ x. String.◌∷◌ c w ∷ split_loop fuel (trim x))
        (behind_word-word t (String.◌∷◌ c w) whole)
    ∙ ap (λ x. String.◌∷◌ c w ∷ split_loop fuel x) (trim-spaced t k)

word-count : (w : String) → is_word w ≡ true → 1 ≤ count w
word-count String.[] h = cc
word-count (String.◌∷◌ c w) h = omega (arith, length-cons c w)

split_loop-words :
    (fuel : ℕ) (w : String) (ws : List String)
    → AreWords (w ∷ ws)
    → count (join " " (w ∷ ws)) ≤ fuel
    → split_loop fuel (join " " (w ∷ ws)) ≡ w ∷ ws
unfolding join
split_loop-words zero w [] (h, _) l = absurd (omega (arith, word-count w h))
split_loop-words zero w (v ∷ ws) (h, k) l =
    absurd (omega (arith, word-count w h, length-append w (" " ++ join " " (v ∷ ws))))
split_loop-words (suc fuel) w [] (h, _) l = last_word fuel w h
split_loop-words (suc fuel) w (v ∷ ws) (h, k) l =
    next_word fuel w (join " " (v ∷ ws)) h (join-IsTight v ws k)
    ∙ ap (λ r. w ∷ r)
        (split_loop-words fuel v ws k (
          omega (
            arith,
            word-count w h,
            length-append w (" " ++ join " " (v ∷ ws)),
            length-append " " (join " " (v ∷ ws)),
          )))

-- Words that are joined by spaces are split again.
pub split_rest-join : (ws : List String) → AreWords ws → split_rest (join " " ws) ≡ ws
unfolding split_rest join
split_rest-join [] h = split_loop-nil 0
split_rest-join (w ∷ ws) h =
    ap (split_loop (count (join " " (w ∷ ws))))
      (trim-IsTight (join " " (w ∷ ws)) (join-IsTight w ws h))
    ∙ split_loop-words (count (join " " (w ∷ ws))) w ws h (omega arith)

abbrev all_words : List String → Bool
all_words [] = true
all_words (w ∷ ws) = is_word w && all_words ws

In-word : (w : String) (ws : List String) → all_words ws ≡ true → In w ws → is_word w ≡ true
In-word w [] h i = absurd i
In-word w (v ∷ ws) h (inl e) = rw e (ground (arith, h))
In-word w (v ∷ ws) h (inr i) = In-word w ws (ground (arith, h)) i

type-word : (type : String) → has type type_names ≡ true → is_word type ≡ true
unfolding is_space
type-word type h = In-word type type_names refl (has→In type type_names h)

-- The parts of an `@attr` tag behind its name and its type.
abbrev pub flagged : Bool → List String → List String
flagged true words = "optional" ∷ words
flagged false words = words

abbrev pub starts_optional : List String → Bool
starts_optional [] = false
starts_optional (w ∷ ws) = w == "optional"

flagged-optional_of :
    (optional : Bool) (words : List String)
    → (optional || not (starts_optional words)) ≡ true
    → optional_of (flagged optional words) ≡ (optional, words)
unfolding optional_of
flagged-optional_of true words h = refl
flagged-optional_of false [] h = refl
flagged-optional_of false (w ∷ ws) h = ground (arith, h)

flagged-AreWords :
    (optional : Bool) (words : List String) → AreWords words → AreWords (flagged optional words)
unfolding is_space
flagged-AreWords true words h = (refl, h)
flagged-AreWords false words h = h

-- An `@attr` tag written out with one of the types, `optional` or not, and words of description that
-- do not start with `optional` where it is not, is read back as it was.
pub parse_attr_tag-written :
    (name type : String) (optional : Bool) (words : List String)
    → is_word name ≡ true
    → has type type_names ≡ true
    → AreWords words
    → (optional || not (starts_optional words)) ≡ true
    → parse_attr_tag (join " " (name ∷ type ∷ flagged optional words))
      ≡ ok (attr name (some type) optional (description_of words))
unfolding parse_attr_tag attr_from type_of
parse_attr_tag-written name type optional words h k w f =
    ap attr_from (
      split_rest-join (name ∷ type ∷ flagged optional words)
        (h, (type-word type k, flagged-AreWords optional words w)))
    ∙ rw (k, flagged-optional_of optional words f) refl
