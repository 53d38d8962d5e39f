-- ===== src/Schema/Docs.antt =====
-- rulesetSchema.js, `chevronPlainText`, `metaDescription`, `metaRidVersion`, `docAttrs`,
-- `docReturns`, `docRuleExamples` and `docQueryExamples`: what the schema takes from the `meta`
-- block and from doc comments.
use Prim.Native.Char.{Char}
use Prim.Native.String.{◌++◌ as ◌<>◌}
use pico_engine.Base.{
  String, Bool, false, not, ◌==◌, ◌&&◌, if◌then◌else◌, List, [], ◌∷◌, Option, none, some, truthy,
  map,
}
use pico_engine.Ast.{
  Node, Nodes, nil, cons, string, chevron, Json, DocTag, attr, returns, example, MetaProperty,
}
use pico_engine.Generate.{join, trim, cat, is_space, is_code}
use pico_engine.Derive.Entries.{Attr, gen_text}

chevron_raw : Nodes → String
chevron_raw nil = ""
chevron_raw (cons (string s) ps) = s <> chevron_raw ps
chevron_raw (cons p ps) = cat ("#{" ∷ gen_text p ∷ "}" ∷ chevron_raw ps ∷ [])

-- `.replace(/[^\S\n]+/g, ' ')`: `in_run` tells that the run's space is written already.
single_spaces : Bool → String → String
single_spaces in_run String.[] = ""
single_spaces in_run (String.◌∷◌ c s) =
    let blank = is_space c && not (is_code 10 c) in
    let next = single_spaces blank s in
    if blank then (if in_run then next else " " <> next) else String.◌∷◌ c next

-- The lines behind the first, which is read character by character.
extend_first : Char → List String → List String
extend_first c [] = String.◌∷◌ c "" ∷ []
extend_first c (l ∷ ls) = String.◌∷◌ c l ∷ ls

split_lines : String → List String
unfolding extend_first
split_lines String.[] = "" ∷ []
split_lines (String.◌∷◌ c s) =
    let rest = split_lines s in if is_code 10 c then "" ∷ rest else extend_first c rest

unfoldable pub chevron_plain_text : Nodes → String
unfolding chevron_raw single_spaces split_lines
chevron_plain_text parts =
    trim (join "\n" (map trim (split_lines (single_spaces false (chevron_raw parts)))))

-- A description that is neither a string nor a chevron is passed over.
unfoldable pub described_by : Node → Option String
unfolding chevron_plain_text
described_by (string s) = some s
described_by (chevron parts) = some (chevron_plain_text parts)
described_by _ = none

-- The first property with the key whose value can be read.
unfoldable pub first_value : String → (Node → Option String) → List MetaProperty → Option String
first_value key read [] = none
first_value key read (p ∷ ps) =
    if p.key == key
    then elim (read p.value) [ some s ↦ some s | none ↦ first_value key read ps ]
    else first_value key read ps

unfoldable pub meta_description : List MetaProperty → Option String
unfolding first_value described_by
meta_description meta = first_value "description" described_by meta

unfoldable pub literal : Node → Option String
literal (string s) = some s
literal _ = none

unfoldable pub or_draft : Option String → Option String → String
or_draft (some v) other = v
or_draft none (some v) = v
or_draft none none = "draft"

-- `meta.version`, or the deprecated `ruleset{version}`, or "draft".
unfoldable pub meta_rid_version : List MetaProperty → Node → String
unfolding first_value literal or_draft
meta_rid_version meta version = or_draft (first_value "version" literal meta) (literal version)

-- `t.type || 'Any'`
unfoldable pub type_or_any : Option String → String
type_or_any none = "Any"
type_or_any (some t) = if t == "" then "Any" else t

unfoldable pub doc_attrs : List DocTag → List Attr
unfolding type_or_any
doc_attrs [] = []
doc_attrs (attr name type optional description ∷ ts) =
    record {
      name = name;
      kind = type_or_any type;
      required = not optional;
      description = truthy description;
      pattern = none;
    }
    ∷ doc_attrs ts
doc_attrs (_ ∷ ts) = doc_attrs ts

-- The type of the first `@returns`.
unfoldable pub doc_returns : List DocTag → String
doc_returns [] = "Any"
doc_returns (returns type description ∷ ts) = type
doc_returns (_ ∷ ts) = doc_returns ts

abbrev pub Example : Type 0
Example = String × List (String × Json)

-- `docRuleExamples` and `docQueryExamples`: a name, and the attributes or the arguments.
unfoldable pub doc_examples : List DocTag → List Example
doc_examples [] = []
doc_examples (example name values ∷ ts) = (name, values) ∷ doc_examples ts
doc_examples (_ ∷ ts) = doc_examples ts
