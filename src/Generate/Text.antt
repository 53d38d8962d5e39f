-- ===== src/Generate/Text.antt =====
-- What krl-generator's printers use of JavaScript's strings: join, repeat, trim, trimEnd, the
-- two replacements, JSON.stringify of a string. A text is a list of characters here.
use Prim.Native.Nat.{ℕ, zero, suc, compare, Ordering}
use Prim.Native.Char.{Char, code}
use Prim.Native.String.{String, ◌++◌}
use mathlib.Core.Path.{◌≡◌, refl}
use mathlib.Core.Bool.{Bool, true, false, not, ◌||◌, ◌&&◌}
use mathlib.Core.List.{List, [], ◌∷◌}
use pico_engine.Base.{if◌then◌else◌}

abbrev pub is_code : ℕ → Char → Bool
is_code n c = elim (compare n (code c)) [ Ordering.eq ↦ true | _ ↦ false ]

abbrev pub below : ℕ → Char → Bool
below n c = elim (compare (code c) n) [ Ordering.lt ↦ true | _ ↦ false ]

unfoldable pub join : String → List String → String
join sep [] = ""
join sep (s ∷ []) = s
join sep (s ∷ t ∷ ss) = s ++ (sep ++ join sep (t ∷ ss))

unfoldable pub repeat : String → ℕ → String
repeat s zero = ""
repeat s (suc n) = s ++ repeat s n

-- JavaScript's white space and line terminators (`\s`): below 128, and the others by their number.
ascii_space : Char → Bool
ascii_space c = (below 14 c && not (below 9 c)) || is_code 32 c

unicode_space : Char → Bool
unicode_space c =
    (is_code 160 c || is_code 5760 c)
    || ((below 8203 c && not (below 8192 c))
        || ((is_code 8232 c || is_code 8233 c)
            || ((is_code 8239 c || is_code 8287 c) || (is_code 12288 c || is_code 65279 c))))

unfoldable pub is_space : Char → Bool
unfolding ascii_space unicode_space
is_space c = ascii_space c || unicode_space c

unfoldable pub all_space : String → Bool
all_space String.[] = true
all_space (String.◌∷◌ c s) = is_space c && all_space s

unfoldable pub trim_start : String → String
trim_start String.[] = ""
trim_start (String.◌∷◌ c s) = if is_space c then trim_start s else String.◌∷◌ c s

unfoldable pub trim_end : String → String
unfolding all_space is_space
trim_end String.[] = ""
trim_end (String.◌∷◌ c s) = if all_space (String.◌∷◌ c s) then "" else String.◌∷◌ c (trim_end s)

unfoldable pub trim : String → String
unfolding trim_start trim_end
trim s = trim_end (trim_start s)

-- `s.replace(/\n\n/g, '\n')`: from the left, without overlap.
unfoldable pub single_lines : String → String
single_lines (String.◌∷◌ a (String.◌∷◌ b s)) =
    let pair = String.◌∷◌ a (single_lines s) in
    let one = String.◌∷◌ a (single_lines (String.◌∷◌ b s)) in
    if is_code 10 a && is_code 10 b then pair else one
single_lines s = s

-- `s.replace(/>>/g, '>\\>')`.
unfoldable pub escape_chevron : String → String
escape_chevron (String.◌∷◌ a (String.◌∷◌ b s)) =
    let pair = String.◌∷◌ a ("\\>" ++ escape_chevron s) in
    let one = String.◌∷◌ a (escape_chevron (String.◌∷◌ b s)) in
    if is_code 62 a && is_code 62 b then pair else one
escape_chevron s = s

-- The characters below the space, as JSON.stringify writes them.
abbrev controls : List String
controls =
    "\\u0000" ∷ "\\u0001" ∷ "\\u0002" ∷ "\\u0003" ∷ "\\u0004" ∷ "\\u0005" ∷ "\\u0006" ∷ "\\u0007"
    ∷ "\\b" ∷ "\\t" ∷ "\\n" ∷ "\\u000b" ∷ "\\f" ∷ "\\r" ∷ "\\u000e" ∷ "\\u000f" ∷ "\\u0010"
    ∷ "\\u0011" ∷ "\\u0012" ∷ "\\u0013" ∷ "\\u0014" ∷ "\\u0015" ∷ "\\u0016" ∷ "\\u0017" ∷ "\\u0018"
    ∷ "\\u0019" ∷ "\\u001a" ∷ "\\u001b" ∷ "\\u001c" ∷ "\\u001d" ∷ "\\u001e" ∷ "\\u001f" ∷ []

nth : ℕ → List String → String
nth i [] = ""
nth zero (s ∷ ss) = s
nth (suc i) (s ∷ ss) = nth i ss

json_char : Char → String
unfolding nth
json_char c =
    if is_code 34 c
    then "\\\""
    else if is_code 92 c
    then "\\\\"
    else if below 32 c
    then nth (code c) controls
    else String.◌∷◌ c ""

json_chars : String → String
json_chars String.[] = ""
json_chars (String.◌∷◌ c s) = json_char c ++ json_chars s

-- `JSON.stringify(s)` of a string.
unfoldable pub json_string : String → String
unfolding json_char json_chars
json_string s = "\"" ++ (json_chars s ++ "\"")

-- `/^[a-z]/i.test(s)`.
unfoldable pub starts_with_letter : String → Bool
starts_with_letter String.[] = false
starts_with_letter (String.◌∷◌ c s) =
    (below 91 c && not (below 65 c)) || (below 123 c && not (below 97 c))

unfoldable pub starts_with_newline : String → Bool
starts_with_newline String.[] = false
starts_with_newline (String.◌∷◌ c s) = is_code 10 c

-- A template's pieces, one after another.
abbrev pub cat : List String → String
cat [] = ""
cat (s ∷ ss) = s ++ cat ss

json_string_quotes : json_string "a\"\\\n\u{1}" ≡ "\"a\\\"\\\\\\n\\u0001\""
unfolding json_string
json_string_quotes = refl

trim_both : trim "\n  ab c \n" ≡ "ab c"
unfolding trim
trim_both = refl

single_lines_three : single_lines "a\n\n\nb" ≡ "a\n\nb"
unfolding single_lines
single_lines_three = refl
