-- ===== src/Samples/Uses.antt =====
-- Rulesets that use each other's modules, and the witnesses of the properties on them.
use pico_engine.Base.{◌≡◌, refl, List, [], ◌∷◌, some, none, has, lookup}
use pico_engine.Modules.Graph.{
  Graph, CachedRuleset, Updating, found, find_cycle, each, dfs, enter, leave, deps_of, slice,
  index_of, drop, validate_module_dependencies,
}
use pico_engine.Modules.Cycles.{IsDecided, find_cycle_decides}
use pico_engine.Modules.Validate.{IsValidated, validate_module_dependencies_decides}

-- `a` uses `b` and `d`, `b` uses `c`, `c` uses `b`.
abbrev uses : Graph
uses = ("a", "b" ∷ "d" ∷ []) ∷ ("b", "c" ∷ []) ∷ ("c", "b" ∷ []) ∷ []

uses_found : find_cycle uses ≡ found ("b" ∷ "c" ∷ "b" ∷ [])
unfolding find_cycle each dfs enter deps_of slice index_of drop has lookup leave
uses_found = refl

find_cycle_decides_example : IsDecided uses (find_cycle uses)
find_cycle_decides_example = find_cycle_decides uses

abbrev registered : List CachedRuleset
registered =
    record {
      url = "u:b";
      rid = "b";
      crs_ruleset = record { meta_use = some (record { kind = "module"; rid = "c" } ∷ []) };
    }
    ∷ record { url = "u:c"; rid = "c"; crs_ruleset = record { meta_use = none } }
    ∷ []

abbrev update : Updating
update = record { url = "u:c"; rid = "c"; deps = "b" ∷ [] }

validate_module_dependencies_decides_example :
    IsValidated registered update (validate_module_dependencies registered update)
validate_module_dependencies_decides_example =
    validate_module_dependencies_decides registered update
