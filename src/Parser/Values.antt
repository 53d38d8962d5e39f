-- ===== src/Parser/Values.antt =====
-- krl-parser/src/krl.ts: the values of literal tokens.
use Prim.Native.Char.{Char}
use pico_engine.Base.{ℕ, String, Bool, false, ◌&&◌, ◌||◌, if◌then◌else◌, Option, none, some}
use pico_engine.Ast.{Node, regexp}
use pico_engine.Lexer.Scan.{drop}
use pico_engine.Generate.{is_code}

-- `replace` of a backslash and the character with the code by that character, from the left.
unfoldable pub unescape : (Char → Bool) → String → String
unescape p String.[] = ""
unescape p (String.◌∷◌ c String.[]) = String.◌∷◌ c ""
unescape p (String.◌∷◌ c (String.◌∷◌ d s)) =
    let behind = unescape p s in
    let next = unescape p (String.◌∷◌ d s) in
    if is_code 92 c && p d then String.◌∷◌ d behind else String.◌∷◌ c next

abbrev opens : String → Bool
opens String.[] = false
opens (String.◌∷◌ c s) = is_code 123 c

abbrev opens_beesting : String → Bool
opens_beesting String.[] = false
opens_beesting (String.◌∷◌ c s) = is_code 35 c && opens s

-- `/\\#{/g` by `#{`
unfoldable pub unescape_beesting : String → String
unescape_beesting String.[] = ""
unescape_beesting (String.◌∷◌ c s) =
    let rest = unescape_beesting s in
    if is_code 92 c && opens_beesting s then rest else String.◌∷◌ c rest

abbrev pub drop_first_quote : String → String
drop_first_quote String.[] = ""
drop_first_quote (String.◌∷◌ c s) = if is_code 34 c then s else String.◌∷◌ c s

abbrev pub drop_last_quote : String → String
drop_last_quote String.[] = ""
drop_last_quote (String.◌∷◌ c String.[]) = if is_code 34 c then "" else String.◌∷◌ c ""
drop_last_quote (String.◌∷◌ c (String.◌∷◌ d s)) = String.◌∷◌ c (drop_last_quote (String.◌∷◌ d s))

unfoldable pub string_of : String → String
unfolding unescape
string_of src =
    unescape (is_code 92) (unescape (is_code 34) (drop_last_quote (drop_first_quote src)))

unfoldable pub chevron_string_of : String → String
unfolding unescape unescape_beesting
chevron_string_of src = unescape (is_code 92) (unescape_beesting (unescape (is_code 62) src))

-- The text up to the last `#`, and behind it; none without one.
unfoldable pub split_last : String → Option (String × String)
split_last String.[] = none
split_last (String.◌∷◌ c s) = elim (split_last s) [
  | some (before, behind) ↦ some (String.◌∷◌ c before, behind)
  | none ↦ if is_code 35 c then some ("", s) else none
]

abbrev has_flag : ℕ → String → Bool
has_flag n String.[] = false
has_flag n (String.◌∷◌ c s) = is_code n c || has_flag n s

-- The pattern and the modifiers of `re#...#gi`; the tokenizer makes no other.
abbrev pub regexp_parts : Option (String × String) → String × String
regexp_parts none = ("", "")
regexp_parts (some (before, behind)) = (unescape (is_code 35) before, behind)

unfoldable pub regexp_of : String → String × String
unfolding split_last unescape
regexp_of src = regexp_parts (split_last (drop 3 src))

abbrev pub regexp_node : String × String → Node
regexp_node (pattern, modifiers) = regexp pattern (has_flag 103 modifiers) (has_flag 105 modifiers)
