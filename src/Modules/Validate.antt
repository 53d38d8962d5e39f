-- ===== src/Modules/Validate.antt =====
-- pico-engine-core/src/moduleDependencies.ts: what validateModuleDependencies accepts and throws.
use pico_engine.Base.{
  String, ◌==◌, ◌≡◌, refl, sym, ◌⊎◌, inl, inr, true, false, not, ◌&&◌, Bool-cases, eq_iff, Option,
  none, some, List, [], ◌∷◌, has, has→In, In→has, All, In, arith,
}
use Prim.Native.String
use pico_engine.Modules.Graph.{
  Graph, Search, found, ended, out_of_fuel, find_cycle, format_cycle, CachedRuleset, Updating,
  available_rids, missing_dep, Validation, accepted, not_loaded, dependency_cycle, unfinished,
  report, updated_graph, validate_module_dependencies,
}
use pico_engine.Modules.Walks.{IsCycle}
use pico_engine.Modules.Cycles.{IsDecided, find_cycle_decides}

-- A dependency that is the ruleset itself or is registered.
abbrev pub IsLoaded : List CachedRuleset → Updating → String → Type 0
IsLoaded cached updating dep = (dep ≡ updating.rid) ⊎ In dep (available_rids cached updating.url)

module _ (rid : String) (available : List String) where
  missing_dep-none :
      (deps : List String)
      → missing_dep rid available deps ≡ none
      → All (λ d. (d ≡ rid) ⊎ In d available) deps
  unfolding missing_dep
  missing_dep-none [] h = tt
  missing_dep-none (d ∷ ds) h = elim (Bool-cases (d == rid)) [
    | inl e ↦ (inl ((eq_iff d rid).0 e), missing_dep-none ds (rw e at h))
    | inr e ↦ elim (Bool-cases (has d available)) [
      | inl f ↦ (inr (has→In d available f), missing_dep-none ds (rw (e, f) at h))
      | inr f ↦ absurd (ground (arith, rw (e, f) at h))
    ]
  ]

  missing_dep-some :
      (deps : List String) (d : String)
      → missing_dep rid available deps ≡ some d
      → In d deps × ((d == rid) ≡ false) × (has d available ≡ false)
  unfolding missing_dep
  missing_dep-some [] d h = cc
  missing_dep-some (x ∷ ds) d h = elim (Bool-cases (not (x == rid) && not (has x available))) [
    | inl e ↦ this (rw e at h) e
    | inr e ↦ let (i, other, away) = missing_dep-some ds d (rw e at h) in (inr i, other, away)
  ]
    where
      this :
          some x ≡ some d
          → (not (x == rid) && not (has x available)) ≡ true
          → In d (x ∷ ds) × ((d == rid) ≡ false) × (has d available ≡ false)
      this k e =
          let same : x ≡ d = ground (arith, k) in
          let other : (x == rid) ≡ false = ground (arith, e) in
          let away : has x available ≡ false = ground (arith, e) in
          (inl (sym same), rw (← same) other, rw (← same) away)

-- The search's report on a graph: the message names a cycle, or there is none.
abbrev Reported : Graph → String → Validation → Type 0
Reported g rid accepted = (c : List String) → IsCycle g c → ⊥
Reported g rid (not_loaded m) = ⊥
Reported g rid (dependency_cycle m) =
    (c : List String) × (m ≡ String.◌++◌ "Dependency Cycle Found: " (format_cycle c rid))
    × IsCycle g c
Reported g rid unfinished = ⊥

report-Reported :
    (g : Graph) (rid : String) (s : Search) → IsDecided g s → Reported g rid (report s rid)
unfolding report
report-Reported g rid (found c) h = (c, refl, h)
report-Reported g rid (ended st) h = h
report-Reported g rid out_of_fuel h = h

-- What a result of the check says of the rulesets.
abbrev pub IsValidated : List CachedRuleset → Updating → Validation → Type 0
IsValidated cached updating accepted =
    All (IsLoaded cached updating) updating.deps
    × ((c : List String) → IsCycle (updated_graph cached updating) c → ⊥)
IsValidated cached updating (not_loaded m) =
    (dep : String) × (m ≡ String.◌++◌ "Dependant module not loaded: " dep)
    × In dep updating.deps
    × (IsLoaded cached updating dep → ⊥)
IsValidated cached updating (dependency_cycle m) =
    All (IsLoaded cached updating) updating.deps
    × (c : List String) × (m ≡ String.◌++◌ "Dependency Cycle Found: " (format_cycle c updating.rid))
    × IsCycle (updated_graph cached updating) c
IsValidated cached updating unfinished = ⊥

loaded_and :
    (cached : List CachedRuleset) (updating : Updating)
    → All (IsLoaded cached updating) updating.deps
    → (v : Validation) → Reported (updated_graph cached updating) updating.rid v
    → IsValidated cached updating v
loaded_and cached updating h accepted r = (h, r)
loaded_and cached updating h (not_loaded m) r = absurd r
loaded_and cached updating h (dependency_cycle m) (c, e, k) = (h, c, e, k)
loaded_and cached updating h unfinished r = r

-- The check always gives an answer, and the answer is so. Accepted: each dependency is the ruleset
-- itself or the rid of a registered ruleset of another url, and the module uses have no cycle once
-- the ruleset's own are replaced. A module not loaded: it is a dependency and neither of the two. A
-- cycle: the dependencies are loaded, and the message is the text of a cycle of those uses.
pub validate_module_dependencies_decides :
    (cached : List CachedRuleset) (updating : Updating)
    → IsValidated cached updating (validate_module_dependencies cached updating)
unfolding validate_module_dependencies
validate_module_dependencies_decides cached updating =
    go (missing_dep updating.rid (available_rids cached updating.url) updating.deps) refl
  where
    go :
        (o : Option String)
        → missing_dep updating.rid (available_rids cached updating.url) updating.deps ≡ o
        → IsValidated cached updating (elim o [
          | some dep ↦ not_loaded (String.◌++◌ "Dependant module not loaded: " dep)
          | none ↦ report (find_cycle (updated_graph cached updating)) updating.rid
        ])
    go none e =
        loaded_and cached updating (missing_dep-none updating.rid _ updating.deps e) _
          (report-Reported _ updating.rid _ (find_cycle_decides (updated_graph cached updating)))
    go (some dep) e =
        let (i, other, away) = missing_dep-some updating.rid _ updating.deps dep e in
        (
          dep,
          refl,
          i,
          λ l. elim l [
            | inl k ↦ ground (arith, other, eq_iff dep updating.rid)
            | inr k ↦ ground (arith, away, In→has dep _ k)
          ],
        )
