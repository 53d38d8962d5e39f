-- ===== src/Derive/Attrs/Merging.antt =====
-- What `mergeAttrs` keeps under a name: the comment before the select, the select before what the
-- rule reads.
use pico_engine.Base.{
  String, ◌==◌, ◌≡◌, refl, Bool, true, false, ◌||◌, if◌then◌else◌, List, [], ◌∷◌, Option, none,
  some, map, or_else, has, has-keys, keys, values, lookup, insert, lookup-insert, IsNodup,
  keys-insert-IsNodup, IsNamed, insert-IsNamed, names-values, lookup-nil, is_proto, arith, eq_iff,
  ◌∙◌, Bool-cases, inl, inr,
}
use pico_engine.Derive.Entries.{Attr}
use pico_engine.Derive.Attrs.{
  ByName, known, add_doc_attrs, from_entry, add_entry_attrs, from_read, add_read_attrs, merged,
  merge_attrs,
}

abbrev pub name_of : Attr → String
name_of a = a.name

-- The last attribute with a name, and the first.
abbrev pub last_named : String → List Attr → Option Attr
last_named n [] = none
last_named n (a ∷ as') = or_else (last_named n as') (if a.name == n then some a else none)

abbrev pub first_named : String → List Attr → Option Attr
first_named n [] = none
first_named n (a ∷ as') = if a.name == n then some (from_entry a) else first_named n as'

abbrev pub find_named : String → List Attr → Option Attr
find_named n [] = none
find_named n (a ∷ as') = if a.name == n then some a else find_named n as'

-- The attribute that the merge keeps under the name `n`.
abbrev pub kept : String → List Attr → List String → List Attr → Option Attr
kept n doc derived entry = or_else (last_named n doc) (
    if is_proto n
    then none
    else or_else (first_named n entry) (if has n derived then some (from_read n) else none))

lookup-add_doc_attrs :
    (n : String) (as' : List Attr) (m : ByName)
    → lookup n (add_doc_attrs as' m) ≡ or_else (last_named n as') (lookup n m)
unfolding add_doc_attrs
lookup-add_doc_attrs n [] m = refl
lookup-add_doc_attrs n (a ∷ as') m =
    ground (arith, lookup-add_doc_attrs n as' (insert a.name a m), lookup-insert a.name n a m)

lookup-add_entry_attrs :
    (n : String) (as' : List Attr) (m : ByName)
    → lookup n (add_entry_attrs as' m)
      ≡ or_else (lookup n m) (if is_proto n then none else first_named n as')
unfolding add_entry_attrs known
lookup-add_entry_attrs n [] m = ground arith
lookup-add_entry_attrs n (a ∷ as') m = elim (Bool-cases (has a.name (keys m) || is_proto a.name)) [
  | inl old ↦
      rw old
        (ground (arith, lookup-add_entry_attrs n as' m, has-keys a.name m, eq_iff a.name n, old))
  | inr new ↦ rw new (
      ground (
        arith,
        lookup-add_entry_attrs n as' (insert a.name (from_entry a) m),
        has-keys a.name m,
        lookup-insert a.name n (from_entry a) m,
        eq_iff a.name n,
        new,
      ))
]

lookup-add_read_attrs :
    (n : String) (ns : List String) (m : ByName)
    → lookup n (add_read_attrs ns m)
      ≡ or_else
          (lookup n m)
          (if is_proto n then none else if has n ns then some (from_read n) else none)
unfolding add_read_attrs known has
lookup-add_read_attrs n [] m = ground arith
lookup-add_read_attrs n (k ∷ ns) m = elim (Bool-cases (has k (keys m) || is_proto k)) [
  | inl old ↦ rw old (ground (arith, lookup-add_read_attrs n ns m, has-keys k m, eq_iff k n, old))
  | inr new ↦ rw new (
      ground (
        arith,
        lookup-add_read_attrs n ns (insert k (from_read k) m),
        has-keys k m,
        lookup-insert k n (from_read k) m,
        eq_iff k n,
        new,
      ))
]

lookup-merged :
    (n : String) (doc : List Attr) (derived : List String) (entry : List Attr)
    → lookup n (merged doc derived entry) ≡ kept n doc derived entry
unfolding merged
lookup-merged n doc derived entry = ground (
  arith,
  lookup-add_read_attrs n derived (add_entry_attrs entry (add_doc_attrs doc [])),
  lookup-add_entry_attrs n entry (add_doc_attrs doc []),
  lookup-add_doc_attrs n doc [],
  lookup-nil {V = Attr} n,
)

-- Each entry of the object stands under the name of its attribute, and no name stands twice.
record IsIndex (m : ByName) : Type 0 where
  named : IsNamed name_of m
  nodup : IsNodup (keys m)

insert-IsIndex : (a : Attr) (m : ByName) → IsIndex m → IsIndex (insert a.name a m)
insert-IsIndex a m h = record {
  named = insert-IsNamed name_of a m h.named;
  nodup = keys-insert-IsNodup a.name a m h.nodup;
}

add_doc_attrs-IsIndex : (as' : List Attr) (m : ByName) → IsIndex m → IsIndex (add_doc_attrs as' m)
unfolding add_doc_attrs
add_doc_attrs-IsIndex [] m h = h
add_doc_attrs-IsIndex (a ∷ as') m h = add_doc_attrs-IsIndex as' _ (insert-IsIndex a m h)

-- What the two other loops do with an attribute that may be known.
unless_known-IsIndex :
    (b : Bool) (a : Attr) (m : ByName) → IsIndex m → IsIndex (if b then m else insert a.name a m)
unless_known-IsIndex true a m h = h
unless_known-IsIndex false a m h = insert-IsIndex a m h

add_entry_attrs-IsIndex :
    (as' : List Attr) (m : ByName) → IsIndex m → IsIndex (add_entry_attrs as' m)
unfolding add_entry_attrs
add_entry_attrs-IsIndex [] m h = h
add_entry_attrs-IsIndex (a ∷ as') m h =
    add_entry_attrs-IsIndex as' _ (unless_known-IsIndex (known a.name m) (from_entry a) m h)

add_read_attrs-IsIndex : (ns : List String) (m : ByName) → IsIndex m → IsIndex (add_read_attrs ns m)
unfolding add_read_attrs
add_read_attrs-IsIndex [] m h = h
add_read_attrs-IsIndex (n ∷ ns) m h =
    add_read_attrs-IsIndex ns _ (unless_known-IsIndex (known n m) (from_read n) m h)

merged-IsIndex :
    (doc : List Attr) (derived : List String) (entry : List Attr)
    → IsIndex (merged doc derived entry)
unfolding merged
merged-IsIndex doc derived entry = add_read_attrs-IsIndex derived _ (
    add_entry_attrs-IsIndex entry _
      (add_doc_attrs-IsIndex doc [] (record { named = tt; nodup = tt })))

find_named-values :
    (n : String) (m : ByName) → IsNamed name_of m → find_named n (values m) ≡ lookup n m
unfolding lookup
find_named-values n [] h = refl
find_named-values n ((k, a) ∷ m) (e, h) = rw (e, find_named-values n m h)

-- Under each name the merge keeps the last attribute of the doc comment; without one the first of
-- the select, without its description and with type Any; without that, where the rule reads the
-- name, an optional attribute of type Any. The select and the reads count only for names that no
-- JavaScript object inherits.
pub merge_attrs-kept :
    (n : String) (doc : List Attr) (derived : List String) (entry : List Attr)
    → find_named n (merge_attrs doc derived entry) ≡ kept n doc derived entry
unfolding merge_attrs
merge_attrs-kept n doc derived entry =
    find_named-values n (merged doc derived entry) (merged-IsIndex doc derived entry).named
    ∙ lookup-merged n doc derived entry

-- No two attributes of the merge have one name.
pub merge_attrs-IsNodup :
    (doc : List Attr) (derived : List String) (entry : List Attr)
    → IsNodup (map name_of (merge_attrs doc derived entry))
unfolding merge_attrs
merge_attrs-IsNodup doc derived entry =
    let h = merged-IsIndex doc derived entry in rw (names-values name_of _ h.named) h.nodup
