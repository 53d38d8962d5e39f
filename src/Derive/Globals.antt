-- ===== src/Derive/Globals.antt =====
-- deriveSchema.js, `globalByNameFrom` and `resolveGlobalFunction`: the declarations of the
-- `global` block by name, and the function that a name stands for through `f = g` aliases.
pub mod Termination
pub mod Aliases
use pico_engine.Base.{
  ℕ, zero, suc, ◌+◌, String, ◌==◌, Bool, true, false, ◌||◌, if◌then◌else◌, List, [], ◌∷◌, Option,
  none, some, length, insert, lookup, marked,
}
use pico_engine.Ast.{Node, Nodes, nil, cons, function, identifier, declaration}

abbrev pub Globals : Type 0
Globals = List (String × Node)

unfoldable pub add_global : Node → Globals → Globals
add_global (declaration (identifier n) right doc) m =
    insert n (declaration (identifier n) right doc) m
add_global _ m = m

unfoldable pub globals_from : Nodes → Globals → Globals
globals_from nil m = m
globals_from (cons dec decs) m = globals_from decs (add_global dec m)

unfoldable pub global_by_name_from : Nodes → Globals
global_by_name_from global = globals_from global []

-- A result of the `while` loop; `no_fuel` is no outcome of the program.
pub data Resolved : Type 0 where
  found : Node → Resolved
  missing : Resolved
  no_fuel : Resolved

-- The three tests on `dec.right`; `continue` goes round the loop with the alias's name.
unfoldable pub follow_right : Node → (String → Resolved) → Resolved
follow_right (function ps body ret) continue = found (function ps body ret)
follow_right (identifier n) continue = continue n
follow_right _ continue = missing

unfoldable pub follow : Option Node → (String → Resolved) → Resolved
follow (some (declaration left right doc)) continue = follow_right right continue
follow _ continue = missing

unfoldable pub resolve_loop : ℕ → Globals → String → List String → Resolved
resolve_loop zero m cur seen = no_fuel
resolve_loop (suc fuel) m cur seen =
    if cur == "" || marked cur seen
    then missing
    else follow (lookup cur m) (λ next. resolve_loop fuel m next (cur ∷ seen))

-- One round for each name of the block, and one to find the end.
unfoldable pub resolve_global_function : Globals → String → Resolved
resolve_global_function m name = resolve_loop (length m + 1) m name []
