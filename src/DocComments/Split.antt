-- ===== src/DocComments/Split.antt =====
-- krl-parser/src/docComment.ts: parseQuotedString and splitRest.
use Prim.Native.Char.{Char}
use Prim.Native.String.{count}
use pico_engine.Base.{ℕ, zero, suc, String, if◌then◌else◌, List, [], ◌∷◌, Option, none, some}
use pico_engine.Generate.{trim, trim_start, is_space, is_code}

abbrev pub prepend : Char → Option (String × String) → Option (String × String)
prepend c none = none
prepend c (some (value, rest)) = some (String.◌∷◌ c value, rest)

-- The loop behind the opening quote: the value, and the text behind the closing quote.
unfoldable pub quoted_body : String → Option (String × String)
quoted_body String.[] = none
quoted_body (String.◌∷◌ c String.[]) = if is_code 34 c then some ("", "") else none
quoted_body (String.◌∷◌ c (String.◌∷◌ d s)) =
    let escaped = prepend d (quoted_body s) in
    let plain = prepend c (quoted_body (String.◌∷◌ d s)) in
    if is_code 92 c then escaped else if is_code 34 c then some ("", String.◌∷◌ d s) else plain

unfoldable pub quoted : String → Option (String × String)
unfolding quoted_body
quoted String.[] = none
quoted (String.◌∷◌ c s) = if is_code 34 c then quoted_body s else none

unfoldable pub parse_quoted_string : String → Option (String × String)
unfolding quoted trim_start
parse_quoted_string input = quoted (trim_start input)

-- `/^(\S+)/`: the characters up to the first white space, and the rest.
unfoldable pub word_of : String → String
word_of String.[] = ""
word_of (String.◌∷◌ c s) = let rest = word_of s in if is_space c then "" else String.◌∷◌ c rest

unfoldable pub behind_word : String → String
behind_word String.[] = ""
behind_word (String.◌∷◌ c s) =
    let rest = behind_word s in if is_space c then String.◌∷◌ c s else rest

-- A round takes at least one character off, so the length of the text is fuel enough.
unfoldable pub split_loop : ℕ → String → List String
split_loop zero s = []
split_loop (suc fuel) String.[] = []
split_loop (suc fuel) (String.◌∷◌ c s) = elim (parse_quoted_string (String.◌∷◌ c s)) [
  | some (value, rest) ↦ value ∷ split_loop fuel (trim rest)
  | none ↦
      if is_space c
      then []
      else word_of (String.◌∷◌ c s) ∷ split_loop fuel (trim (behind_word (String.◌∷◌ c s)))
]

unfoldable pub split_rest : String → List String
unfolding split_loop
split_rest rest = split_loop (count rest) (trim rest)
