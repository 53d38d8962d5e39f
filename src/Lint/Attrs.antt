-- ===== src/Lint/Attrs.antt =====
-- annotationLint.js, `settingAttrName`, `ruleUsesWholeEventAttrs`, `attrNamesUsedByRule`,
-- `ruleByName` and `lintUnusedDocAttrs`: the `@attr`s that no rule reads.
pub mod Unused
use pico_engine.Base.{
  String, Bool, true, false, not, ◌==◌, ◌&&◌, ◌||◌, if◌then◌else◌, List, [], ◌∷◌, ◌++◌, Option,
  none, some, truthy, of_option, marked, map, add_keys,
}
use pico_engine.Ast.{
  Node, Nodes, absent, application, domain_identifier, declaration, raise_event, schedule_event,
  action, map_pair, string_value, first_arg, walk, walk_rule, DocTag, attr, DocComment, Rule,
  Ruleset,
}
use pico_engine.Generate.{cat}
use pico_engine.Derive.Entries.{Attr, attr_names, Entry, entries_from_select}
use pico_engine.Derive.Reads.{is_event_attrs_expr, derived_attr_names_from_rule}
use pico_engine.Schema.Index.{Peer}
use pico_engine.Schema.Build.{Operation, derived_of}

-- `setting:attr("name")`
unfoldable pub setting_attr_name : Node → Option String
unfolding string_value first_arg
setting_attr_name (application (domain_identifier domain value) args) =
    if domain == "setting" && value == "attr" then string_value (first_arg args) else none
setting_attr_name _ = none

-- The names that the visits set: `if (s)` drops the empty name.
unfoldable pub setting_reads : List Node → List String
unfolding setting_attr_name
setting_reads [] = []
setting_reads (n ∷ ns) = of_option (truthy (setting_attr_name n)) ++ setting_reads ns

-- A pair `"attributes": event:attrs` in the argument of `event:send`.
unfoldable pub sends_event_attrs : List Node → Bool
unfolding is_event_attrs_expr
sends_event_attrs [] = false
sends_event_attrs (map_pair key value ∷ ns) =
    (key == "attributes" && is_event_attrs_expr value) || sends_event_attrs ns
sends_event_attrs (_ ∷ ns) = sends_event_attrs ns

unfoldable pub is_send : Node → Bool
is_send (domain_identifier domain value) = domain == "event" && value == "send"
is_send _ = false

-- What one visit of `ruleUsesWholeEventAttrs` finds.
unfoldable pub passes_event_attrs : Node → Bool
unfolding is_event_attrs_expr sends_event_attrs is_send first_arg
passes_event_attrs (declaration left right doc) = is_event_attrs_expr right
passes_event_attrs (raise_event d t both attrs for_rid) = is_event_attrs_expr attrs
passes_event_attrs (schedule_event d t both attrs s at ts) = is_event_attrs_expr attrs
passes_event_attrs (action label callee args setting) =
    is_send callee && sends_event_attrs (walk (first_arg args))
passes_event_attrs _ = false

unfoldable pub any_passes : List Node → Bool
unfolding passes_event_attrs
any_passes [] = false
any_passes (n ∷ ns) = passes_event_attrs n || any_passes ns

unfoldable pub rule_uses_whole_event_attrs : Rule → Bool
unfolding any_passes
rule_uses_whole_event_attrs r = any_passes (walk_rule r)

unfoldable pub attr_names_used_by_rule : Rule → Nodes → List String
unfolding setting_reads attr_names derived_of
attr_names_used_by_rule r global =
    add_keys (attr_names (derived_of (entries_from_select r.select)))
      (add_keys (setting_reads (walk_rule r)) (add_keys (derived_attr_names_from_rule r global) []))

unfoldable pub rule_by_name : String → List Rule → Option Rule
rule_by_name name [] = none
rule_by_name name (r ∷ rs) = if r.name == name then some r else rule_by_name name rs

-- The loop over the peers: `used`, and `skipUnused`.
unfoldable pub used_by_peers : List Rule → Nodes → List Peer → List String → List String
unfolding attr_names_used_by_rule rule_by_name
used_by_peers rules global [] used = used
used_by_peers rules global (p ∷ ps) used =
    used_by_peers rules global ps (elim (rule_by_name p.rule rules) [
      | none ↦ used
      | some r ↦ add_keys (attr_names_used_by_rule r global) used
    ])

unfoldable pub peers_use_whole : List Rule → List Peer → Bool
unfolding rule_uses_whole_event_attrs rule_by_name
peers_use_whole rules [] = false
peers_use_whole rules (p ∷ ps) =
    let rest = peers_use_whole rules ps in
    elim (rule_by_name p.rule rules) [
      | none ↦ rest
      | some r ↦ rule_uses_whole_event_attrs r || rest
    ]

-- The names of the `@attr` tags that `used` has not.
unfoldable pub unread_tags : List String → List DocTag → List String
unread_tags used [] = []
unread_tags used (attr name type optional description ∷ ts) =
    let rest = unread_tags used ts in if marked name used then rest else name ∷ rest
unread_tags used (_ ∷ ts) = unread_tags used ts

-- The attributes that an operation is warned for, by its rule and the rule's doc comment.
unfoldable pub unused_attrs : Ruleset → Rule → DocComment → List Peer → List String
unfolding attr_names_used_by_rule used_by_peers peers_use_whole unread_tags
    rule_uses_whole_event_attrs
unused_attrs ast r doc peers =
    if rule_uses_whole_event_attrs r || peers_use_whole ast.rules peers
    then []
    else unread_tags
        (used_by_peers ast.rules ast.global peers (attr_names_used_by_rule r ast.global)) doc.tags

abbrev unread_warning : String → String → String
unread_warning rule name = cat ("@attr " ∷ name ∷ " is not read in rule " ∷ rule ∷ [])

unfoldable pub doc_of_rule : Option Rule → Option (Rule × DocComment)
doc_of_rule none = none
doc_of_rule (some r) = elim r.doc [ none ↦ none | some doc ↦ some (r, doc) ]

unfoldable pub lint_unused_doc_attrs : Ruleset → List Operation → List String
unfolding unused_attrs doc_of_rule rule_by_name
lint_unused_doc_attrs ast [] = []
lint_unused_doc_attrs ast (op ∷ ops) =
    let rest = lint_unused_doc_attrs ast ops in
    elim (doc_of_rule (rule_by_name op.rule ast.rules)) [
      | none ↦ rest
      | some (r, doc) ↦
          map (unread_warning op.rule) (unused_attrs ast r doc op.also_selected_by) ++ rest
    ]
