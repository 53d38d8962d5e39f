-- ===== src/PicoSchema/Selected.antt =====
-- pico-engine-core/src/ruleOutcomes.ts: which outcome each rule gets.
use pico_engine.Base.{
  String, ◌==◌, ◌≡◌, refl, ap, sym, ◌∙◌, inl, inr, if◌then◌else◌, Bool-cases, List, [], ◌∷◌, ◌++◌,
  Option, none, some, Option-cases,
}
use pico_engine.PicoSchema.Types.{SchemaOperation}
use pico_engine.PicoSchema.Channel.{Installed, GetCached, ruleset_schema_for_installed}
use pico_engine.PicoSchema.Outcomes.{
  RuleOutcome, outcome_key, operation_matches_event, is_annotated_operation, Collected,
  push_outcome, push_runtime, not_selected, push_operations, push_rulesets,
}

-- The outcomes of annotated rules among those of the run.
abbrev pub annotated : Installed → GetCached → List RuleOutcome → List RuleOutcome
annotated installed get_cached [] = []
annotated installed get_cached (o ∷ os) =
    if is_annotated_operation (ruleset_schema_for_installed installed get_cached o.rid) o.rule
    then o ∷ annotated installed get_cached os
    else annotated installed get_cached os

abbrev matching : String → String → String → List SchemaOperation → List RuleOutcome
matching domain name rid [] = []
matching domain name rid (op ∷ ops) =
    if operation_matches_event op domain name
    then not_selected rid op ∷ matching domain name rid ops
    else matching domain name rid ops

-- An outcome `not_selected` for each operation of the installed rulesets with the event.
abbrev pub unselected : Installed → GetCached → String → String → List String → List RuleOutcome
unselected installed get_cached domain name [] = []
unselected installed get_cached domain name (rid ∷ rids) =
    elim (ruleset_schema_for_installed installed get_cached rid) [
      | none ↦ unselected installed get_cached domain name rids
      | some schema ↦
          matching domain name rid schema.operations
          ++ unselected installed get_cached domain name rids
    ]

abbrev pub push_all : List RuleOutcome → Collected → Collected
push_all [] st = st
push_all (o ∷ os) st = push_all os (push_outcome o st)

pub push_all-append :
    (os ps : List RuleOutcome) (st : Collected)
    → push_all (os ++ ps) st ≡ push_all ps (push_all os st)
push_all-append [] ps st = refl
push_all-append (o ∷ os) ps st = push_all-append os ps (push_outcome o st)

pub push_runtime-all :
    (installed : Installed) (get_cached : GetCached) (os : List RuleOutcome) (st : Collected)
    → push_runtime installed get_cached os st ≡ push_all (annotated installed get_cached os) st
unfolding push_runtime
push_runtime-all installed get_cached [] st = refl
push_runtime-all installed get_cached (o ∷ os) st =
    elim (Bool-cases
      (is_annotated_operation (ruleset_schema_for_installed installed get_cached o.rid) o.rule)) [
        | inl e ↦ rw e (push_runtime-all installed get_cached os (push_outcome o st))
        | inr e ↦ rw e (push_runtime-all installed get_cached os st)
      ]

push_operations-all :
    (domain name rid : String) (ops : List SchemaOperation) (st : Collected)
    → push_operations domain name rid ops st ≡ push_all (matching domain name rid ops) st
unfolding push_operations
push_operations-all domain name rid [] st = refl
push_operations-all domain name rid (op ∷ ops) st =
    elim (Bool-cases (operation_matches_event op domain name)) [
      | inl e ↦
          rw e (push_operations-all domain name rid ops (push_outcome (not_selected rid op) st))
      | inr e ↦ rw e (push_operations-all domain name rid ops st)
    ]

pub push_rulesets-all :
    (installed : Installed) (get_cached : GetCached) (domain name : String) (rids : List String)
    (st : Collected)
    → push_rulesets installed get_cached domain name rids st
      ≡ push_all (unselected installed get_cached domain name rids) st
unfolding push_rulesets
push_rulesets-all installed get_cached domain name [] st = refl
push_rulesets-all installed get_cached domain name (rid ∷ rids) st =
    elim (Option-cases (ruleset_schema_for_installed installed get_cached rid)) [
      | inl e ↦
          rw (push_rulesets, unselected, e)
            (push_rulesets-all installed get_cached domain name rids st)
      | inr (schema, e) ↦
          rw (push_rulesets, unselected, e)
            (push_rulesets-all installed get_cached domain name rids _
              ∙ ap (push_all (unselected installed get_cached domain name rids))
                  (push_operations-all domain name rid schema.operations st)
              ∙ sym (push_all-append (matching domain name rid schema.operations) _ st))
    ]

-- The first outcome of a list with the key `rid:rule`.
abbrev pub outcome_at : String → List RuleOutcome → Option RuleOutcome
outcome_at key [] = none
outcome_at key (o ∷ os) = if outcome_key o == key then some o else outcome_at key os

abbrev pub outcome_keys : List RuleOutcome → List String
outcome_keys [] = []
outcome_keys (o ∷ os) = outcome_key o ∷ outcome_keys os
