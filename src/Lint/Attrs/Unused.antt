-- ===== src/Lint/Attrs/Unused.antt =====
-- When an `@attr` is reported as unused.
use pico_engine.Base.{String, ◌≡◌, Bool, false, ◌||◌, List, [], ◌∷◌, ◌++◌, of_option, has}
use pico_engine.Ast.{Nodes, DocTag, attr, Rule}
use pico_engine.Schema.Index.{Peer}
use pico_engine.Lint.Attrs.{rule_uses_whole_event_attrs, attr_names_used_by_rule, rule_by_name}

-- The rules that the peers name.
abbrev pub peer_rules : List Rule → List Peer → List Rule
peer_rules rules [] = []
peer_rules rules (p ∷ ps) = of_option (rule_by_name p.rule rules) ++ peer_rules rules ps

-- The names of the `@attr` tags.
abbrev pub attr_tags : List DocTag → List String
attr_tags [] = []
attr_tags (attr name type optional description ∷ ts) = name ∷ attr_tags ts
attr_tags (_ ∷ ts) = attr_tags ts

-- The rule neither passes on all attributes of the event nor reads this one.
abbrev pub Ignores : String → Nodes → Rule → Type 0
Ignores n global r =
    (rule_uses_whole_event_attrs r ≡ false) × (has n (attr_names_used_by_rule r global) ≡ false)

abbrev any_reads : String → Nodes → List Rule → Bool
any_reads n global [] = false
any_reads n global (r ∷ rs) = has n (attr_names_used_by_rule r global) || any_reads n global rs

abbrev any_whole : List Rule → Bool
any_whole [] = false
any_whole (r ∷ rs) = rule_uses_whole_event_attrs r || any_whole rs
