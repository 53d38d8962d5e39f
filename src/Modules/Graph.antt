-- ===== src/Modules/Graph.antt =====
-- pico-engine-core/src/moduleDependencies.ts: the graph of module uses, the search for a cycle,
-- and the check of a ruleset that is about to be registered. A set is the list of its elements,
-- the last added first, since only membership is asked.
use Prim.Native.String.{◌++◌}
use pico_engine.Base.{
  ℕ, zero, suc, String, ◌==◌, Bool, true, false, not, ◌&&◌, if◌then◌else◌, Option, none, some,
  or_else, List, [], ◌∷◌, has, lookup, insert, keys, length, ◌≡◌, refl,
}
use pico_engine.Base as Base
use pico_engine.Generate.{join}

-- A line `use module rid` of a ruleset's meta block, or another `use`.
pub record Use : Type 0 where
  pub kind : String
  pub rid : String

-- `meta?.use`
pub record Ruleset : Type 0 where
  pub meta_use : Option (List Use)

pub record CachedRuleset : Type 0 where
  pub url : String
  pub rid : String
  pub crs_ruleset : Ruleset

module_rids : List Use → List String
module_rids [] = []
module_rids (u ∷ us) = if u.kind == "module" then u.rid ∷ module_rids us else module_rids us

unfoldable pub get_module_uses : Ruleset → List String
unfolding module_rids
get_module_uses rs = elim rs.meta_use [ none ↦ [] | some us ↦ module_rids us ]

abbrev pub Graph : Type 0
Graph = List (String × List String)

-- `graph.get(node) || []`
unfoldable pub deps_of : Graph → String → List String
deps_of graph node = elim (lookup node graph) [ none ↦ [] | some deps ↦ deps ]

pub record State : Type 0 where
  pub visiting : List String
  pub visited : List String
  pub path : List String

-- What a call of dfs gives: a cycle, or null with the sets as they stand then.
pub data Search : Type 0 where
  found : List String → Search
  ended : State → Search
  out_of_fuel : Search

unfoldable pub index_of : String → List String → Option ℕ
index_of x [] = none
index_of x (y ∷ ys) =
    let behind = index_of x ys in
    if y == x then some 0 else elim behind [ none ↦ none | some n ↦ some (suc n) ]

last_of : List String → List String
last_of [] = []
last_of (x ∷ []) = x ∷ []
last_of (x ∷ y ∷ ys) = last_of (y ∷ ys)

unfoldable pub drop : ℕ → List String → List String
drop zero xs = xs
drop (suc n) [] = []
drop (suc n) (x ∷ xs) = drop n xs

unfoldable pub take : ℕ → List String → List String
take zero xs = []
take (suc n) [] = []
take (suc n) (x ∷ xs) = x ∷ take n xs

-- `xs.slice(i)`, where `none` is the index -1.
unfoldable pub slice : Option ℕ → List String → List String
unfolding last_of
slice none xs = last_of xs
slice (some n) xs = drop n xs

unfoldable pub pop : List String → List String
pop [] = []
pop (x ∷ []) = []
pop (x ∷ y ∷ ys) = x ∷ pop (y ∷ ys)

unfoldable pub delete : String → List String → List String
delete x [] = []
delete x (y ∷ ys) = if y == x then delete x ys else y ∷ delete x ys

-- The loop over the dependencies, which ends at the first cycle.
unfoldable pub each : (String → State → Search) → List String → State → Search
each visit [] st = ended st
each visit (dep ∷ deps) st = elim (visit dep st) [
  | found cycle ↦ found cycle
  | ended st' ↦ each visit deps st'
  | out_of_fuel ↦ out_of_fuel
]

unfoldable pub enter : String → State → State
enter node st = record st { visiting = node ∷ st.visiting; path = Base.◌++◌ st.path (node ∷ []) }

-- The lines behind the loop.
unfoldable pub leave : String → Search → Search
leave node (ended st) =
    ended (record {
      visiting = delete node st.visiting;
      visited = node ∷ st.visited;
      path = pop st.path;
    })
leave node result = result

-- The fuel bounds the depth of the calls.
unfoldable pub dfs : Graph → ℕ → String → State → Search
dfs graph zero node st = out_of_fuel
dfs graph (suc fuel) node st =
    let below = each (dfs graph fuel) (deps_of graph node) (enter node st) in
    if has node st.visiting
    then found (Base.◌++◌ (slice (index_of node st.path) st.path) (node ∷ []))
    else if has node st.visited
    then ended st
    else leave node below

abbrev pub fresh : State
fresh = record { visiting = []; visited = []; path = [] }

-- A call is nested in calls on different keys only, so one more than their number is enough.
unfoldable pub find_cycle : Graph → Search
find_cycle graph = each (dfs graph (suc (length (keys graph)))) (keys graph) fresh

-- The nodes of the message: the cycle from `prefer_start` on, where that is one of them.
unfoldable pub cycle_from : List String → String → List String
cycle_from cycle prefer_start = elim (index_of prefer_start (pop cycle)) [
  | none ↦ cycle
  | some n ↦ Base.◌++◌ (drop n (pop cycle)) (Base.◌++◌ (take n (pop cycle)) (prefer_start ∷ []))
]

unfoldable pub format_cycle : List String → String → String
format_cycle cycle prefer_start = join " -> " (cycle_from cycle prefer_start)

pub record Updating : Type 0 where
  pub url : String
  pub rid : String
  pub deps : List String

unfoldable pub available_rids : List CachedRuleset → String → List String
available_rids [] url = []
available_rids (crs ∷ rest) url =
    if crs.url == url then available_rids rest url else crs.rid ∷ available_rids rest url

unfoldable pub graph_of : List CachedRuleset → String → Graph → Graph
graph_of [] url graph = graph
graph_of (crs ∷ rest) url graph =
    if crs.url == url
    then graph_of rest url graph
    else graph_of rest url (insert crs.rid (get_module_uses crs.crs_ruleset) graph)

unfoldable pub missing_dep : String → List String → List String → Option String
missing_dep rid available [] = none
missing_dep rid available (dep ∷ deps) =
    if not (dep == rid) && not (has dep available) then some dep else missing_dep rid available deps

-- What the check throws, if anything.
pub data Validation : Type 0 where
  accepted : Validation
  not_loaded : String → Validation
  dependency_cycle : String → Validation
  unfinished : Validation

unfoldable pub report : Search → String → Validation
report (found cycle) rid = dependency_cycle ("Dependency Cycle Found: " ++ format_cycle cycle rid)
report (ended st) rid = accepted
report out_of_fuel rid = unfinished

-- The graph with the updated ruleset in it.
unfoldable pub updated_graph : List CachedRuleset → Updating → Graph
updated_graph cached updating = insert updating.rid updating.deps (graph_of cached updating.url [])

unfoldable pub validate_module_dependencies : List CachedRuleset → Updating → Validation
validate_module_dependencies cached updating =
    elim (missing_dep updating.rid (available_rids cached updating.url) updating.deps) [
      | some dep ↦ not_loaded ("Dependant module not loaded: " ++ dep)
      | none ↦ report (find_cycle (updated_graph cached updating)) updating.rid
    ]
