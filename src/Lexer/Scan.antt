-- ===== src/Lexer/Scan.antt =====
-- krl-parser/src/tokenizer.ts: reading ahead in the source text, whose part from the index `i` on
-- is `rest` here. A character is one UTF-16 unit; those outside the basic plane are not modelled.
use Prim.Native.Nat.{compare, Ordering}
use Prim.Native.Char.{Char}
use Prim.Native.String.{count}
use pico_engine.Base.{
  ℕ, zero, suc, String, ◌==◌, Bool, true, false, not, ◌&&◌, ◌||◌, if◌then◌else◌, Option, none, some,
  List, [], ◌∷◌, ◌≡◌, refl,
}
use pico_engine.Generate.{is_code, below}

-- `n > m` for a length `n`.
abbrev pub longer_than : ℕ → ℕ → Bool
longer_than m n = elim (compare m n) [ Ordering.lt ↦ true | _ ↦ false ]

abbrev pub is_digit : Char → Bool
is_digit c = below 58 c && not (below 48 c)

abbrev is_letter : Char → Bool
is_letter c = (below 91 c && not (below 65 c)) || (below 123 c && not (below 97 c))

-- `/[a-zA-Z_$]/` and `/[a-zA-Z0-9_$]/`
abbrev pub starts_symbol : Char → Bool
starts_symbol c = is_letter c || (is_code 95 c || is_code 36 c)

abbrev pub in_symbol : Char → Bool
in_symbol c = starts_symbol c || is_digit c

abbrev pub is_flag : Char → Bool
is_flag c = is_code 103 c || (is_code 105 c || is_code 109 c)

-- `src.substring(i, i + n)` and the text after it.
abbrev pub take : ℕ → String → String
take zero s = ""
take (suc n) String.[] = ""
take (suc n) (String.◌∷◌ c s) = String.◌∷◌ c (take n s)

abbrev pub drop : ℕ → String → String
drop zero s = s
drop (suc n) String.[] = ""
drop (suc n) (String.◌∷◌ c s) = drop n s

-- A test of `c`, the next character, when there is one.
abbrev pub next_is : (Char → Bool) → String → Bool
next_is p String.[] = false
next_is p (String.◌∷◌ c s) = p c

-- A number's dot: one with a digit behind it.
abbrev pub starts_fraction : String → Bool
starts_fraction String.[] = false
starts_fraction (String.◌∷◌ c s) = is_code 46 c && next_is is_digit s

-- What a call of addToBuffer leaves: the characters it added, and the rest of the source.
pub record Buffer : Type 0 where
  pub buff : String
  pub rest : String

-- `escaped`, once the character `c` is added.
abbrev pub escapes : Bool → Bool → Char → Bool
escapes do_escaping escaped c =
    if escaped then false else if do_escaping then is_code 92 c else false

-- The condition is asked with the buffer's length and the rest; an escaped character never stops.
unfoldable pub add_to_buffer : (ℕ → String → Bool) → Bool → Bool → ℕ → String → Buffer
add_to_buffer stop do_escaping escaped n String.[] = record { buff = ""; rest = "" }
add_to_buffer stop do_escaping escaped n (String.◌∷◌ c s) =
    let after = add_to_buffer stop do_escaping (escapes do_escaping escaped c) (suc n) s in
    if not (stop n (String.◌∷◌ c s)) || escaped
    then record { buff = String.◌∷◌ c after.buff; rest = after.rest }
    else record { buff = ""; rest = String.◌∷◌ c s }

-- The characters up to the first that fails the test.
unfoldable pub run_of : (Char → Bool) → String → Buffer
run_of p s = add_to_buffer (λ n r. not (next_is p r)) false false 0 s

-- handleChevronBody's call: its condition also notes in `peek` the two characters it saw.
pub record Peeked : Type 0 where
  pub buff : String
  pub rest : String
  pub peek : String

abbrev pub ends_chevron : String → Bool
ends_chevron peek = (peek == "#{") || (peek == ">>")

unfoldable pub chevron_text : Bool → String → String → Peeked
chevron_text escaped peek String.[] = record { buff = ""; rest = ""; peek = peek }
chevron_text escaped peek (String.◌∷◌ c s) =
    let seen = take 2 (String.◌∷◌ c s) in
    let after = chevron_text (escapes true escaped c) seen s in
    if not (ends_chevron seen) || escaped
    then record { buff = String.◌∷◌ c after.buff; rest = after.rest; peek = after.peek }
    else record { buff = ""; rest = String.◌∷◌ c s; peek = seen }

-- The first entry of the list that the rest starts with.
unfoldable pub raw_at : List String → String → Option String
raw_at [] rest = none
raw_at (tok ∷ toks) rest = if tok == take (count tok) rest then some tok else raw_at toks rest

abbrev pub raw_toks : List String
raw_toks =
    "<=>" ∷ "<=" ∷ "<" ∷ "||" ∷ "|" ∷ "==" ∷ "=>" ∷ "=" ∷ ":=" ∷ ":" ∷ ">=" ∷ "><" ∷ ">" ∷ "&&"
    ∷ "!=" ∷ "(" ∷ ")" ∷ "{" ∷ "}" ∷ "[" ∷ "]" ∷ "," ∷ "/" ∷ "." ∷ "-" ∷ "%" ∷ "+" ∷ ";" ∷ "*" ∷ []

raw_at_longest : raw_at raw_toks "<= b" ≡ some "<="
unfolding raw_at
raw_at_longest = refl

run_of_digits : run_of is_digit "12a" ≡ record { buff = "12"; rest = "a" }
unfolding run_of add_to_buffer
run_of_digits = refl
