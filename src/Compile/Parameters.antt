-- ===== src/Compile/Parameters.antt =====
-- c/Parameters.js: which parameter lists are refused. The code made for a parameter is left out.
pub mod Order
use pico_engine.Base.{
  String, Bool, true, false, not, ◌&&◌, ◌||◌, if◌then◌else◌, List, [], ◌∷◌, Option, none, some,
  marked,
}
use pico_engine.Ast.{Nodes}
use pico_engine.Generate.{cat}
use pico_engine.Schema.Queries.{Param, params_from}

-- The first error, with `usedIds` and `hasSeenDefault`; a parameter stands with whether it has a
-- default.
unfoldable pub check_params : List Param → List String → Bool → Option String
check_params [] used seen_default = none
check_params ((id, default) ∷ ps) used seen_default =
    let rest = check_params ps (id ∷ used) (default || seen_default) in
    if marked id used
    then some (cat ("Duplicate parameter: " ∷ id ∷ []))
    else if not default && seen_default
    then some "Cannot have a non-default parameter after a defaulted one"
    else rest

unfoldable pub parameters_error : Nodes → Option String
unfolding check_params
parameters_error params = check_params (params_from params) [] false
