-- ===== src/Samples/Comments.antt =====
-- Doc comments, and the witnesses of the properties on them.
use pico_engine.Base.{String, true, false, ◌≡◌, refl, has, [], ◌∷◌, some, none}
use pico_engine.Ast.{attr}
use pico_engine.Generate.{join, trim, trim_start, trim_end, all_space, is_space}
use pico_engine.Lexer.State.{Token, block_comment}
use pico_engine.Schema.Queries.{ok, err}
use pico_engine.DocComments.Split.{
  parse_quoted_string, quoted, quoted_body, word_of, behind_word, split_loop, split_rest,
}
use pico_engine.DocComments.Tags.{
  JsonParse, description_of, type_of, optional_of, attr_from, parse_attr_tag,
}
use pico_engine.DocComments.Parse.{
  is_doc_comment_token, without_end, split_lines, strip_line, tag_match, name_of, behind_name,
  is_one_line, flush, flush_unless_seen, add_tag, read_tag, read_text, read_line, read_lines,
  parse_doc_comment,
}
use pico_engine.DocComments.Quoting.{flagged, parse_attr_tag-written}

abbrev comment : String → Token
comment src = record { type = block_comment; src = src; start = 0; end = 0; missing_close = none }

no_json : JsonParse
no_json text = err "no JSON"

greeting_read :
    parse_doc_comment no_json
      (comment "/**\n * Greets\n * someone.\n * @attr who String a \"full name\"\n */")
    ≡ ok (record {
      description = "Greets someone.";
      tags = attr "who" (some "String") false (some "a full name") ∷ [];
      unknown_tags = [];
    })
unfolding parse_doc_comment is_doc_comment_token without_end split_lines strip_line tag_match
    name_of behind_name is_one_line flush flush_unless_seen add_tag read_tag read_text read_line
    read_lines parse_quoted_string quoted quoted_body word_of behind_word split_loop split_rest
    description_of type_of optional_of attr_from parse_attr_tag join trim trim_start trim_end
    all_space is_space has
greeting_read = refl

-- The empty comment counts as a doc comment, with its own end as the description.
empty_comment_read :
    parse_doc_comment no_json (comment "/**/")
    ≡ ok (record { description = "/"; tags = []; unknown_tags = [] })
unfolding parse_doc_comment is_doc_comment_token without_end split_lines strip_line tag_match flush
    flush_unless_seen read_text read_line read_lines join trim trim_start trim_end all_space
    is_space
empty_comment_read = refl

parse_attr_tag-written_example :
    parse_attr_tag (join " " ("who" ∷ "String" ∷ flagged true ("full" ∷ "name" ∷ [])))
    ≡ ok (attr "who" (some "String") true (description_of ("full" ∷ "name" ∷ [])))
unfolding has is_space
parse_attr_tag-written_example =
    parse_attr_tag-written "who" "String" true ("full" ∷ "name" ∷ []) refl refl (refl, (refl, tt))
      refl
