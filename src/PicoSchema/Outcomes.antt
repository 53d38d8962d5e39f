-- ===== src/PicoSchema/Outcomes.antt =====
-- pico-engine-core/src/ruleOutcomes.ts: which rules an event selected and fired, and which annotated
-- rules it did not select. The order of `localeCompare` is an argument.
use Prim.Native.String.{◌++◌}
use pico_engine.Base.{
  String, Bool, true, false, not, ◌&&◌, ◌||◌, ◌==◌, eq_iff, ◌≡◌, refl, ap, sym, ◌∙◌, inl, inr,
  if◌then◌else◌, Bool-cases, List, [], ◌∷◌, Option, none, some, or_else, is_some, has, keys, In,
  arith, IsNodup,
}
use pico_engine.Base as Base
use pico_engine.PicoSchema.Types.{SchemaOperation, EntryRef, RulesetSchema}
use pico_engine.PicoSchema.Channel.{Installed, GetCached, ruleset_schema_for_installed}

pub record RuleOutcome : Type 0 where
  pub rid : String
  pub rule : String
  pub status : String
  pub select : Option String

abbrev pub outcome_key : RuleOutcome → String
outcome_key o = o.rid ++ (":" ++ o.rule)

abbrev is_text : Option String → String → Bool
is_text none s = false
is_text (some t) s = t == s

unfoldable pub entries_match : List EntryRef → String → String → Bool
entries_match [] domain name = false
entries_match (e ∷ es) domain name =
    (is_text e.domain domain && is_text e.name name) || entries_match es domain name

unfoldable pub operation_matches_event : SchemaOperation → String → String → Bool
unfolding entries_match
operation_matches_event op domain name = entries_match op.entry domain name

has_rule : List SchemaOperation → String → Bool
has_rule [] rule = false
has_rule (op ∷ ops) rule = op.rule == rule || has_rule ops rule

unfoldable pub is_annotated_operation : Option RulesetSchema → String → Bool
unfolding has_rule
is_annotated_operation none rule = false
is_annotated_operation (some schema) rule = has_rule schema.operations rule

-- `seen` and `out`
pub record Collected : Type 0 where
  pub seen : List String
  pub out : List RuleOutcome

unfoldable pub push_outcome : RuleOutcome → Collected → Collected
push_outcome o st =
    if has (outcome_key o) st.seen
    then st
    else record { seen = outcome_key o ∷ st.seen; out = Base.◌++◌ st.out (o ∷ []) }

unfoldable pub push_runtime : Installed → GetCached → List RuleOutcome → Collected → Collected
push_runtime installed get_cached [] st = st
push_runtime installed get_cached (o ∷ os) st = push_runtime installed get_cached os (
    if is_annotated_operation (ruleset_schema_for_installed installed get_cached o.rid) o.rule
    then push_outcome o st
    else st)

abbrev pub not_selected : String → SchemaOperation → RuleOutcome
not_selected rid op = record {
  rid = rid;
  rule = op.rule;
  status = "not_selected";
  select = op.select;
}

unfoldable pub push_operations :
    String → String → String → List SchemaOperation → Collected → Collected
push_operations domain name rid [] st = st
push_operations domain name rid (op ∷ ops) st =
    push_operations domain name rid ops
      (if operation_matches_event op domain name then push_outcome (not_selected rid op) st else st)

unfoldable pub push_rulesets :
    Installed → GetCached → String → String → List String → Collected → Collected
push_rulesets installed get_cached domain name [] st = st
push_rulesets installed get_cached domain name (rid ∷ rids) st =
    push_rulesets installed get_cached domain name rids
      (elim (ruleset_schema_for_installed installed get_cached rid) [
        | none ↦ st
        | some schema ↦ push_operations domain name rid schema.operations st
      ])

-- `out.sort`, which is stable: `after a b` where the comparison of `a` and `b` is positive.
unfoldable pub after : (String → String → Bool) → RuleOutcome → RuleOutcome → Bool
after locale_after a b =
    if a.rid == b.rid then locale_after a.rule b.rule else locale_after a.rid b.rid

unfoldable pub insert_sorted :
    (String → String → Bool) → RuleOutcome → List RuleOutcome → List RuleOutcome
insert_sorted locale_after o [] = o ∷ []
insert_sorted locale_after o (p ∷ ps) =
    let rest = insert_sorted locale_after o ps in
    if after locale_after o p then p ∷ rest else o ∷ p ∷ ps

unfoldable pub sort : (String → String → Bool) → List RuleOutcome → List RuleOutcome
sort locale_after [] = []
sort locale_after (o ∷ os) = insert_sorted locale_after o (sort locale_after os)

unfoldable pub annotated_rule_outcomes_for_event :
    (String → String → Bool)
    → Installed
    → GetCached
    → String
    → String
    → List RuleOutcome
    → List RuleOutcome
annotated_rule_outcomes_for_event locale_after installed get_cached domain name runtime =
    let first : Collected = record { seen = []; out = [] } in
    sort locale_after
      (push_rulesets installed get_cached domain name (keys installed)
        (push_runtime installed get_cached runtime first)).out
