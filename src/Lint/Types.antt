-- ===== src/Lint/Types.antt =====
-- annotationLint.js, `lintSameRulesetAttrTypeConflicts`: attributes that the rules of one event
-- entry give different types.
pub mod Conflicts
mod Differing
use pico_engine.Base.{
  String, Bool, true, false, if◌then◌else◌, List, [], ◌∷◌, ◌++◌, Option, none, some, map, is_proto,
  lookup, insert, values, add_keys,
}
use pico_engine.Generate.{cat}
use pico_engine.Derive.Entries.{Attr, Entry, entry_key}
use pico_engine.Schema.Docs.{type_or_any}
use pico_engine.Schema.Build.{Operation}

-- What one operation says of an entry: its rule and its attributes.
abbrev pub Source : Type 0
Source = String × List Attr

abbrev pub BySource : Type 0
BySource = List (String × List Source)

unfoldable pub sources_at : String → BySource → List Source
sources_at k m = elim (lookup k m) [ none ↦ [] | some ss ↦ ss ]

unfoldable pub push_source : Option String → Source → BySource → BySource
unfolding sources_at
push_source none s m = m
push_source (some k) s m = insert k (sources_at k m ++ (s ∷ [])) m

unfoldable pub push_sources : List Entry → Source → BySource → BySource
unfolding push_source
push_sources [] s m = m
push_sources (e ∷ es) s m = push_sources es s (push_source (entry_key e) s m)

unfoldable pub by_entry : List Operation → BySource → BySource
unfolding push_sources
by_entry [] m = m
by_entry (op ∷ ops) m = by_entry ops (push_sources op.entry (op.rule, op.attrs) m)

-- `typesByAttr`: for each attribute the type that each rule gives it.
abbrev pub TypesByAttr : Type 0
TypesByAttr = List (String × List (String × String))

unfoldable pub types_at : String → TypesByAttr → List (String × String)
types_at n m = elim (lookup n m) [ none ↦ [] | some ts ↦ ts ]

-- A name that every object inherits is no own key, so its types are not looked at.
unfoldable pub set_type : String → String → String → TypesByAttr → TypesByAttr
unfolding types_at
set_type rule name type m =
    if is_proto name then m else insert name (insert rule type (types_at name m)) m

unfoldable pub set_types : String → List Attr → TypesByAttr → TypesByAttr
unfolding set_type
set_types rule [] m = m
set_types rule (a ∷ as') m = set_types rule as' (set_type rule a.name (type_or_any (some a.kind)) m)

unfoldable pub types_by_attr : List Source → TypesByAttr → TypesByAttr
unfolding set_types
types_by_attr [] m = m
types_by_attr ((rule, attrs) ∷ ss) m = types_by_attr ss (set_types rule attrs m)

-- `Object.keys(types).length > 1`
unfoldable pub two_or_more {ℓ} : {A : Type ℓ} → List A → Bool
two_or_more (x ∷ (y ∷ zs)) = true
two_or_more _ = false

unfoldable pub differ : List (String × String) → Bool
unfolding two_or_more
differ by_rule = two_or_more (add_keys (values by_rule) [])

unfoldable pub conflicting : TypesByAttr → List String
unfolding differ
conflicting [] = []
conflicting ((name, by_rule) ∷ m) =
    let rest = conflicting m in if differ by_rule then name ∷ rest else rest

-- The attributes with a conflict, where two operations or more have the entry.
unfoldable pub conflicts_of : List Source → List String
unfolding two_or_more conflicting types_by_attr
conflicts_of ss = if two_or_more ss then conflicting (types_by_attr ss []) else []

abbrev conflict_warning : String → String → String
conflict_warning key name = cat (
    "Conflicting @attr types for \"" ∷ name ∷ "\" on entry " ∷ key ∷ " across rules in this ruleset"
    ∷ [])

unfoldable pub conflict_warnings : BySource → List String
unfolding conflicts_of
conflict_warnings [] = []
conflict_warnings ((key, ss) ∷ m) =
    map (conflict_warning key) (conflicts_of ss) ++ conflict_warnings m

unfoldable pub lint_same_ruleset_attr_type_conflicts : List Operation → List String
unfolding conflict_warnings by_entry
lint_same_ruleset_attr_type_conflicts ops = conflict_warnings (by_entry ops [])
