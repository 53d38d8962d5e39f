-- ===== src/DocComments/Parse.antt =====
-- krl-parser/src/docComment.ts: parseDocComment, line by line.
use Prim.Native.Char.{Char}
use text.Mathlib.Text.{starts_with}
use pico_engine.Base.{
  String, Bool, true, false, not, ◌&&◌, ◌||◌, ◌==◌, if◌then◌else◌, List, [], ◌∷◌, Option, none,
  some, map,
}
use pico_engine.Base as Base
use pico_engine.Ast.{DocTag, DocComment}
use pico_engine.Generate.{join, trim, trim_start, is_space, is_code}
use pico_engine.Lexer.Scan.{drop, is_digit, starts_symbol}
use pico_engine.Lexer.State.{TokenType, Token, block_comment}
use pico_engine.Schema.Queries.{Result, ok, err}
use pico_engine.DocComments.Tags.{
  JsonParse, parse_attr_tag, parse_param_tag, parse_returns_tag, parse_example_tag,
}

-- `token.type === "BLOCK-COMMENT" && token.src.startsWith("/**")`
abbrev is_block : TokenType → Bool
is_block block_comment = true
is_block _ = false

unfoldable pub is_doc_comment_token : Token → Bool
is_doc_comment_token token = is_block token.type && starts_with token.src "/**"

-- The text without a `*/` at its end.
unfoldable pub without_end : String → String
without_end String.[] = ""
without_end (String.◌∷◌ c s) =
    let rest = without_end s in if String.◌∷◌ c s == "*/" then "" else String.◌∷◌ c rest

abbrev put : Char → List String → List String
put c [] = String.◌∷◌ c "" ∷ []
put c (line ∷ lines) = String.◌∷◌ c line ∷ lines

-- `inner.split(/\r?\n/)`
unfoldable pub split_lines : String → List String
split_lines String.[] = "" ∷ []
split_lines (String.◌∷◌ c String.[]) = if is_code 10 c then "" ∷ "" ∷ [] else String.◌∷◌ c "" ∷ []
split_lines (String.◌∷◌ c (String.◌∷◌ d s)) =
    let behind = split_lines s in
    let next = split_lines (String.◌∷◌ d s) in
    if is_code 10 c
    then "" ∷ next
    else if is_code 13 c && is_code 10 d
    then "" ∷ behind
    else put c next

-- `line.replace(/^\s*\*?\s?/, "")`
abbrev drop_space : String → String
drop_space String.[] = ""
drop_space (String.◌∷◌ c s) = if is_space c then s else String.◌∷◌ c s

abbrev drop_star : String → String
drop_star String.[] = ""
drop_star (String.◌∷◌ c s) = if is_code 42 c then drop_space s else String.◌∷◌ c s

unfoldable pub strip_line : String → String
unfolding trim_start
strip_line line = drop_star (trim_start line)

-- `\w`
abbrev is_word_char : Char → Bool
is_word_char c = (starts_symbol c && not (is_code 36 c)) || is_digit c

unfoldable pub name_of : String → String
name_of String.[] = ""
name_of (String.◌∷◌ c s) = let rest = name_of s in if is_word_char c then String.◌∷◌ c rest else ""

unfoldable pub behind_name : String → String
behind_name String.[] = ""
behind_name (String.◌∷◌ c s) =
    let rest = behind_name s in if is_word_char c then rest else String.◌∷◌ c s

-- Line terminators, which `.` does not match.
unfoldable pub is_one_line : String → Bool
is_one_line String.[] = true
is_one_line (String.◌∷◌ c s) =
    not (is_code 10 c || (is_code 13 c || (is_code 8232 c || is_code 8233 c))) && is_one_line s

-- `/^@(\w+)\s*(.*)$/` on a trimmed line.
unfoldable pub tag_match : String → Option (String × String)
unfolding name_of behind_name is_one_line trim_start
tag_match String.[] = none
tag_match (String.◌∷◌ c s) =
    let rest = trim_start (behind_name s) in
    if is_code 64 c && (not (name_of s == "") && is_one_line rest)
    then some (name_of s, rest)
    else none

pub record Reading : Type 0 where
  pub paragraphs : List String
  pub lines : List String
  pub tags : List DocTag
  pub unknown_tags : List String
  pub seen_tag : Bool

unfoldable pub flush : Reading → Reading
flush r = elim r.lines [
  | [] ↦ r
  | line ∷ more ↦ record r {
    paragraphs = Base.◌++◌ r.paragraphs (join " " (line ∷ more) ∷ []);
    lines = [];
  }
]

-- `if (!seenTag) flushDescriptionParagraph()`
unfoldable pub flush_unless_seen : Reading → Reading
unfolding flush
flush_unless_seen r = if r.seen_tag then r else flush r

unfoldable pub add_tag : Result DocTag → Reading → Result Reading
add_tag (err message) r = err message
add_tag (ok tag) r = ok (record r { tags = Base.◌++◌ r.tags (tag ∷ []) })

module _ (json_parse : JsonParse) where
  unfoldable pub read_tag : String → String → Reading → Result Reading
  unfolding add_tag
  read_tag name rest r =
      if name == "attr"
      then add_tag (parse_attr_tag rest) r
      else if name == "param"
      then add_tag (parse_param_tag rest) r
      else if name == "returns"
      then add_tag (parse_returns_tag rest) r
      else if name == "example"
      then add_tag (parse_example_tag json_parse rest) r
      else ok (record r { unknown_tags = Base.◌++◌ r.unknown_tags (name ∷ []) })

  unfoldable pub read_text : String → Reading → Result Reading
  unfolding read_tag flush_unless_seen tag_match
  read_text trimmed r = elim (tag_match trimmed) [
    | some (name, rest) ↦ read_tag name rest (record (flush_unless_seen r) { seen_tag = true })
    | none ↦ ok (if r.seen_tag then r else record r { lines = Base.◌++◌ r.lines (trimmed ∷ []) })
  ]

  unfoldable pub read_line : String → Reading → Result Reading
  unfolding read_text flush_unless_seen
  read_line line r =
      let trimmed = trim line in
      if trimmed == "" then ok (flush_unless_seen r) else read_text trimmed r

  unfoldable pub read_lines : List String → Reading → Result Reading
  read_lines [] r = ok r
  read_lines (line ∷ lines) r = elim (read_line line r) [
    | ok r' ↦ read_lines lines r'
    | err message ↦ err message
  ]

  abbrev pub nothing_read : Reading
  nothing_read = record {
    paragraphs = [];
    lines = [];
    tags = [];
    unknown_tags = [];
    seen_tag = false;
  }

  -- `loc` and `raw` are left out, and what follows an unknown tag.
  unfoldable pub parse_doc_comment : Token → Result DocComment
  unfolding flush strip_line
  parse_doc_comment token =
      if is_doc_comment_token token
      then elim (read_lines (map strip_line (split_lines (without_end (drop 3 token.src))))
          nothing_read) [
            | err message ↦ err message
            | ok r ↦ ok (record {
              description = trim (join "\n\n" (flush r).paragraphs);
              tags = r.tags;
              unknown_tags = r.unknown_tags;
            })
          ]
      else err "Expected /** doc comment"
