-- ===== src/Derive/Attrs.antt =====
-- deriveSchema.js, `mergeAttrs`: the attributes of an operation, from its doc comment, from its
-- select and from what the rule reads.
pub mod Merging
use pico_engine.Base.{
  String, Bool, true, false, ◌||◌, if◌then◌else◌, List, [], ◌∷◌, Option, none, some, truthy, has,
  keys, values, insert, is_proto,
}
use pico_engine.Derive.Entries.{Attr}

abbrev pub ByName : Type 0
ByName = List (String × Attr)

-- `byName[name]` is truthy.
unfoldable pub known : String → ByName → Bool
known n m = has n (keys m) || is_proto n

-- The last attribute of a name in the comment wins, at the place of the first.
unfoldable pub add_doc_attrs : List Attr → ByName → ByName
add_doc_attrs [] m = m
add_doc_attrs (a ∷ as') m = add_doc_attrs as' (insert a.name a m)

abbrev pub from_entry : Attr → Attr
from_entry a = record {
  name = a.name;
  kind = "Any";
  required = a.required;
  description = none;
  pattern = truthy a.pattern;
}

unfoldable pub add_entry_attrs : List Attr → ByName → ByName
unfolding known
add_entry_attrs [] m = m
add_entry_attrs (a ∷ as') m =
    add_entry_attrs as' (if known a.name m then m else insert a.name (from_entry a) m)

abbrev pub from_read : String → Attr
from_read n = record {
  name = n;
  kind = "Any";
  required = false;
  description = none;
  pattern = none;
}

unfoldable pub add_read_attrs : List String → ByName → ByName
unfolding known
add_read_attrs [] m = m
add_read_attrs (n ∷ ns) m = add_read_attrs ns (if known n m then m else insert n (from_read n) m)

-- The object `byName` at the end.
unfoldable pub merged : List Attr → List String → List Attr → ByName
unfolding add_doc_attrs add_entry_attrs add_read_attrs
merged doc derived entry = add_read_attrs derived (add_entry_attrs entry (add_doc_attrs doc []))

unfoldable pub merge_attrs : List Attr → List String → List Attr → List Attr
unfolding merged
merge_attrs doc derived entry = values (merged doc derived entry)
