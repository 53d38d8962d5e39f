-- ===== src/Mcp/Patterns.antt =====
-- Which of a schema's patterns a tool's input is checked against.
use pico_engine.Base.{
  String, ◌==◌, ◌≡◌, ◌⊎◌, inl, inr, refl, Bool, true, false, if◌then◌else◌, List, [], ◌∷◌, Option,
  none, some, truthy, All, values, insert, Bool-cases,
}
use pico_engine.Ast.{DocTag, attr, param, returns, example}
use pico_engine.Derive.Entries.{Attr}
use pico_engine.Derive.Attrs.{
  ByName, known, add_doc_attrs, from_entry, add_entry_attrs, from_read, add_read_attrs, merged,
  merge_attrs,
}
use pico_engine.Schema.Docs.{doc_attrs}
use pico_engine.Mcp.{
  Field, zod_for_attr, regex_of, type_name, to_lower_case, shape_from, attrs_to_zod_shape,
}

-- An attribute with no pattern, or of type Any.
abbrev Loose : Attr → Type 0
Loose a = (a.pattern ≡ none) ⊎ (a.kind ≡ "Any")

module _ {V : Type 0} (P : V → Type 0) where
  All-values-insert :
      (k : String) (v : V) (m : List (String × V))
      → P v
      → All P (values m)
      → All P (values (insert k v m))
  unfolding insert
  All-values-insert k v [] p h = (p, tt)
  All-values-insert k v ((j, w) ∷ m) p (q, h) = elim (Bool-cases (j == k)) [
    | inl e ↦ rw e (p, h)
    | inr e ↦ rw e (q, All-values-insert k v m p h)
  ]

  All-values-kept :
      (b : Bool) (k : String) (v : V) (m : List (String × V))
      → P v
      → All P (values m)
      → All P (values (if b then m else insert k v m))
  All-values-kept true k v m p h = h
  All-values-kept false k v m p h = All-values-insert k v m p h

All-doc_attrs : (tags : List DocTag) → All Loose (doc_attrs tags)
unfolding doc_attrs
All-doc_attrs [] = tt
All-doc_attrs (attr n t o d ∷ ts) = (inl refl, All-doc_attrs ts)
All-doc_attrs (param n t d ∷ ts) = All-doc_attrs ts
All-doc_attrs (returns t d ∷ ts) = All-doc_attrs ts
All-doc_attrs (example n v ∷ ts) = All-doc_attrs ts

All-add_doc_attrs :
    (as' : List Attr) (m : ByName)
    → All Loose as'
    → All Loose (values m)
    → All Loose (values (add_doc_attrs as' m))
unfolding add_doc_attrs
All-add_doc_attrs [] m p h = h
All-add_doc_attrs (a ∷ as') m (p, ps) h =
    All-add_doc_attrs as' (insert a.name a m) ps (All-values-insert Loose a.name a m p h)

All-add_entry_attrs :
    (as' : List Attr) (m : ByName)
    → All Loose (values m)
    → All Loose (values (add_entry_attrs as' m))
unfolding add_entry_attrs
All-add_entry_attrs [] m h = h
All-add_entry_attrs (a ∷ as') m h =
    All-add_entry_attrs as' _
      (All-values-kept Loose (known a.name m) a.name (from_entry a) m (inr refl) h)

All-add_read_attrs :
    (ns : List String) (m : ByName)
    → All Loose (values m)
    → All Loose (values (add_read_attrs ns m))
unfolding add_read_attrs
All-add_read_attrs [] m h = h
All-add_read_attrs (n ∷ ns) m h =
    All-add_read_attrs ns _ (All-values-kept Loose (known n m) n (from_read n) m (inr refl) h)

All-merge_attrs :
    (tags : List DocTag) (derived : List String) (entry : List Attr)
    → All Loose (merge_attrs (doc_attrs tags) derived entry)
unfolding merge_attrs merged
All-merge_attrs tags derived entry =
    All-add_read_attrs derived _
      (All-add_entry_attrs entry _ (All-add_doc_attrs (doc_attrs tags) [] (All-doc_attrs tags) tt))

any_unchecked :
    (valid : String → Bool) (o : Option String) → regex_of valid (type_name "Any") o ≡ none
unfolding regex_of type_name to_lower_case
any_unchecked valid none = refl
any_unchecked valid (some p) = refl

Loose-unchecked : (valid : String → Bool) (a : Attr) → Loose a → (zod_for_attr valid a).regex ≡ none
unfolding zod_for_attr regex_of
Loose-unchecked valid a (inl e) = rw e refl
Loose-unchecked valid a (inr e) = rw e (any_unchecked valid (truthy a.pattern))

abbrev pub Unchecked : Field → Type 0
Unchecked f = f.regex ≡ none

All-shape_from :
    (valid : String → Bool) (as' : List Attr) (shape : List (String × Field))
    → All Loose as'
    → All Unchecked (values shape)
    → All Unchecked (values (shape_from valid as' shape))
unfolding shape_from
All-shape_from valid [] shape p h = h
All-shape_from valid (a ∷ as') shape (p, ps) h = All-shape_from valid as' _ ps (
    All-values-kept Unchecked (a.name == "") a.name (zod_for_attr valid a) shape
      (Loose-unchecked valid a p) h)

-- No input of a tool is checked against a pattern, when its attributes are those that the compiler
-- merges for an operation: an attribute with a pattern from the select has the type Any, and
-- patterns are used for the type String alone.
pub attrs_to_zod_shape-Unchecked :
    (valid : String → Bool) (tags : List DocTag) (derived : List String) (entry : List Attr)
    → All Unchecked (values (attrs_to_zod_shape valid (merge_attrs (doc_attrs tags) derived entry)))
unfolding attrs_to_zod_shape
attrs_to_zod_shape-Unchecked valid tags derived entry =
    All-shape_from valid (merge_attrs (doc_attrs tags) derived entry) []
      (All-merge_attrs tags derived entry) tt
