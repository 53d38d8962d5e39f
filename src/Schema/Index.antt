-- ===== src/Schema/Index.antt =====
-- rulesetSchema.js, the `entryIndex` of all active rules and `alsoSelectedBy`: the other rules
-- that one event entry selects.
pub mod Filing
pub mod Peers
use pico_engine.Base.{
  String, Bool, true, false, ◌==◌, if◌then◌else◌, List, [], ◌∷◌, ◌++◌, Option, none, some, map,
  lookup, insert, values,
}
use pico_engine.Ast.{Node, absent, action_block, Rule}
use pico_engine.Derive.Entries.{Entry, gen_text, entries_from_select, entry_key}

pub record Peer : Type 0 where
  pub rule : String
  pub select_text : Option String
  pub condition_text : Option String

abbrev pub EntryIndex : Type 0
EntryIndex = List (String × List Peer)

-- `selectText` of deriveSchema.js.
unfoldable pub select_text : Node → Option String
select_text absent = none
select_text n = some (gen_text n)

-- `conditionText` of deriveSchema.js.
unfoldable pub condition_text : Node → Option String
unfolding select_text
condition_text (action_block c bt d acts) = select_text c
condition_text _ = none

unfoldable pub peer_of : Rule → Peer
unfolding select_text condition_text
peer_of r = record {
  rule = r.name;
  select_text = select_text r.select;
  condition_text = condition_text r.action_block;
}

unfoldable pub peers_at : String → EntryIndex → List Peer
peers_at k m = elim (lookup k m) [ none ↦ [] | some ps ↦ ps ]

-- `entryIndex[key].push(…)`, with the list made first where there is none.
unfoldable pub push_peer : Option String → Peer → EntryIndex → EntryIndex
unfolding peers_at
push_peer none p m = m
push_peer (some k) p m = insert k (peers_at k m ++ (p ∷ [])) m

unfoldable pub index_entries : List Entry → Peer → EntryIndex → EntryIndex
unfolding push_peer
index_entries [] p m = m
index_entries (e ∷ es) p m = index_entries es p (push_peer (entry_key e) p m)

unfoldable pub index_rules : List Rule → EntryIndex → EntryIndex
unfolding index_entries peer_of
index_rules [] m = m
index_rules (r ∷ rs) m =
    index_rules rs
      (if r.active then index_entries (entries_from_select r.select) (peer_of r) m else m)

unfoldable pub entry_index : List Rule → EntryIndex
unfolding index_rules
entry_index rules = index_rules rules []

abbrev pub ByRule : Type 0
ByRule = List (String × Peer)

-- The loop over the peers of a key, without those of the rule itself.
unfoldable pub add_peers : String → List Peer → ByRule → ByRule
add_peers rule [] m = m
add_peers rule (p ∷ ps) m = add_peers rule ps (if p.rule == rule then m else insert p.rule p m)

unfoldable pub keyed_peers : EntryIndex → Option String → List Peer
unfolding peers_at
keyed_peers index none = []
keyed_peers index (some k) = peers_at k index

-- The loop over the entries of an operation.
unfoldable pub collect_peers : EntryIndex → String → List Entry → ByRule → ByRule
unfolding add_peers keyed_peers
collect_peers index rule [] m = m
collect_peers index rule (e ∷ es) m =
    collect_peers index rule es (add_peers rule (keyed_peers index (entry_key e)) m)

unfoldable pub also_selected_by : EntryIndex → String → List Entry → List Peer
unfolding collect_peers
also_selected_by index rule entries = values (collect_peers index rule entries [])
