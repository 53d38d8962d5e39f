-- ===== src/Lexer/Buffers.antt =====
-- krl-parser/src/tokenizer.ts: what addToBuffer's calls leave of the source text.
use Prim.Native.Char.{Char, code}
use Prim.Native.String.{◌++◌, count}
use text.Mathlib.TextLemmas.{nil-append, cons-append, length-cons, length-nil}
use text.Mathlib.TextEquality.{codes_equal}
use pico_engine.Base.{
  ℕ, zero, suc, String, ◌==◌, ◌≡◌, refl, ap, ◌∙◌, ◌⊎◌, inl, inr, Bool, true, false, not, ◌||◌,
  Bool-cases, eq_iff, eq_refl, some, List, [], ◌∷◌, arith,
}
use pico_engine.Generate.{is_code}
use pico_engine.Lexer.Scan.{
  take, drop, escapes, next_is, add_to_buffer, run_of, Peeked, ends_chevron, chevron_text, raw_at,
}
use pico_engine.Lexer.Step.{is_empty}

pub take-drop : (n : ℕ) (s : String) → take n s ++ drop n s ≡ s
take-drop (suc n) String.[] = nil-append ""
take-drop zero s = nil-append s
take-drop (suc n) (String.◌∷◌ c s) =
    cons-append c (take n s) (drop n s) ∙ ap (String.◌∷◌ c) (take-drop n s)

-- A text that the rest starts with.
pub starts : (t r : String) (n : ℕ) → (take n r == t) ≡ true → t ++ drop n r ≡ r
starts t r n h = rw (← (eq_iff (take n r) t).0 h) (take-drop n r)

pub is_code-eq : (c d : Char) → is_code (code c) d ≡ true → c ≡ d
is_code-eq c d h = codes_equal c d (ground (arith, h))

-- A character that the rest starts with.
pub starts_char :
    (c : Char) (r : String) → next_is (is_code (code c)) r ≡ true → String.◌∷◌ c "" ++ drop 1 r ≡ r
starts_char c String.[] h = cc
starts_char c (String.◌∷◌ d r) h = rw (is_code-eq c d h) (take-drop 1 (String.◌∷◌ d r))

module _ (stop : ℕ → String → Bool) where
  pub add_to_buffer-joins :
      (escaping escaped : Bool) (n : ℕ) (s : String)
      → (add_to_buffer stop escaping escaped n s).buff
          ++ (add_to_buffer stop escaping escaped n s).rest
        ≡ s
  unfolding add_to_buffer
  add_to_buffer-joins escaping escaped n String.[] = nil-append ""
  add_to_buffer-joins escaping escaped n (String.◌∷◌ c s) =
      elim (Bool-cases (not (stop n (String.◌∷◌ c s)) || escaped)) [
        | inl e ↦ rw e (
            cons-append c _ _
            ∙ ap (String.◌∷◌ c)
                (add_to_buffer-joins escaping (escapes escaping escaped c) (suc n) s))
        | inr e ↦ rw e (nil-append (String.◌∷◌ c s))
      ]

  -- The buffer ends with the source, or where the condition holds.
  pub add_to_buffer-stops :
      (escaping escaped : Bool) (n : ℕ) (s : String)
      → (is_empty (add_to_buffer stop escaping escaped n s).rest ≡ true)
        ⊎ ((m : ℕ) × (stop m (add_to_buffer stop escaping escaped n s).rest ≡ true))
  unfolding add_to_buffer
  add_to_buffer-stops escaping escaped n String.[] = inl refl
  add_to_buffer-stops escaping escaped n (String.◌∷◌ c s) =
      elim (Bool-cases (stop n (String.◌∷◌ c s))) [
        | inl e ↦ elim (Bool-cases escaped) [
          | inl f ↦ rw (e, f) (add_to_buffer-stops escaping false (suc n) s)
          | inr f ↦ rw (e, f) (inr (n, e))
        ]
        | inr e ↦ rw e (add_to_buffer-stops escaping (escapes escaping escaped c) (suc n) s)
      ]

  pub add_to_buffer-starts :
      (escaping : Bool) (n : ℕ) (s : String)
      → is_empty s ≡ false
      → stop n s ≡ false
      → is_empty (add_to_buffer stop escaping false n s).buff ≡ false
  unfolding add_to_buffer
  add_to_buffer-starts escaping n String.[] h e = cc
  add_to_buffer-starts escaping n (String.◌∷◌ c s) h e = rw e refl

module _ (p : Char → Bool) (s : String) where
  pub run_of-joins : (run_of p s).buff ++ (run_of p s).rest ≡ s
  unfolding run_of
  run_of-joins = add_to_buffer-joins _ false false 0 s

  pub run_of-starts : next_is p s ≡ true → is_empty (run_of p s).buff ≡ false
  unfolding run_of
  run_of-starts h = add_to_buffer-starts _ false 0 s (nonempty s h) (rw h refl)
    where
      nonempty : (r : String) → next_is p r ≡ true → is_empty r ≡ false
      nonempty String.[] h = cc
      nonempty (String.◌∷◌ c r) h = refl

  pub run_of-none : next_is p s ≡ false → (run_of p s).rest ≡ s
  unfolding run_of add_to_buffer
  run_of-none = none_added s
    where
      none_added :
          (r : String)
          → next_is p r ≡ false
          → (add_to_buffer (λ n t. not (next_is p t)) false false 0 r).rest ≡ r
      none_added String.[] h = refl
      none_added (String.◌∷◌ c r) h = rw h refl

-- handleChevronBody's buffer ends with the source, or before `#{` or `>>`, which `peek` holds.
module _ where
  pub chevron_text-joins :
      (escaped : Bool) (peek s : String)
      → (chevron_text escaped peek s).buff ++ (chevron_text escaped peek s).rest ≡ s
  unfolding chevron_text
  chevron_text-joins escaped peek String.[] = nil-append ""
  chevron_text-joins escaped peek (String.◌∷◌ c s) =
      elim (Bool-cases (not (ends_chevron (take 2 (String.◌∷◌ c s))) || escaped)) [
        | inl e ↦ rw e (
            cons-append c _ _
            ∙ ap (String.◌∷◌ c)
                (chevron_text-joins (escapes true escaped c) (take 2 (String.◌∷◌ c s)) s))
        | inr e ↦ rw e (nil-append (String.◌∷◌ c s))
      ]

  -- At the end of the source, with `peek` other than the two, or before one of the two.
  abbrev pub Stopped : Peeked → Type 0
  Stopped r =
      ((r.rest ≡ "") × (ends_chevron r.peek ≡ false))
      ⊎ ((r.peek ≡ take 2 r.rest) × (ends_chevron r.peek ≡ true))

  not_two : (c : Char) (t : String) → count t ≡ 2 → (String.◌∷◌ c "" == t) ≡ false
  not_two c t e = elim (Bool-cases (String.◌∷◌ c "" == t)) [
    | inl h ↦
        absurd
          (omega (arith, ap count ((eq_iff (String.◌∷◌ c "") t).0 h), length-cons c "", length-nil))
    | inr h ↦ h
  ]

  one_left : (c : Char) → ends_chevron (String.◌∷◌ c "") ≡ false
  one_left c = rw (not_two c "#{" refl, not_two c ">>" refl) refl

  stops_cons :
      (escaped : Bool) (peek : String) (c : Char) (s : String)
      → Stopped (chevron_text escaped peek (String.◌∷◌ c s))
  unfolding chevron_text
  stops_cons escaped peek c String.[] = rw (one_left c) (inl (refl, one_left c))
  stops_cons escaped peek c (String.◌∷◌ d s) =
      let seen = take 2 (String.◌∷◌ c (String.◌∷◌ d s)) in
      elim (Bool-cases (ends_chevron seen)) [
        | inl e ↦ elim (Bool-cases escaped) [
          | inl f ↦ rw (e, f) (stops_cons false seen d s)
          | inr f ↦ rw (e, f) (inr (refl, e))
        ]
        | inr e ↦ rw e (stops_cons (escapes true escaped c) seen d s)
      ]

  pub chevron_text-stops :
      (escaped : Bool) (peek s : String)
      → ((s ≡ "") × (chevron_text escaped peek s ≡ record { buff = ""; rest = ""; peek = peek }))
        ⊎ Stopped (chevron_text escaped peek s)
  unfolding chevron_text
  chevron_text-stops escaped peek String.[] = inl (refl, refl)
  chevron_text-stops escaped peek (String.◌∷◌ c s) = inr (stops_cons escaped peek c s)

pub raw_at-starts :
    (toks : List String) (r tok : String) → raw_at toks r ≡ some tok → tok ++ drop (count tok) r ≡ r
unfolding raw_at
raw_at-starts [] r tok h = cc
raw_at-starts (t ∷ toks) r tok h = elim (Bool-cases (t == take (count t) r)) [
  | inl e ↦
      ground (arith, starts t r (count t) (rw (← (eq_iff t (take (count t) r)).0 e) (eq_refl t)))
  | inr e ↦ raw_at-starts toks r tok (rw e at h)
]
