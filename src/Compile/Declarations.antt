-- ===== src/Compile/Declarations.antt =====
-- utils/declarationBlock.js: the declarations of a `global` or a `pre` block, compiled in two passes.
-- `comp` is the compilation of one declaration, which reads and changes the compiler's state, and
-- `declare` is `comp.scope.set` of a name with the type Unknown.
pub mod Passes
use pico_engine.Base.{
  String, Bool, true, false, if◌then◌else◌, List, [], ◌∷◌, ◌++◌, Option, map, has, keys, marked,
  lookup, insert,
}
use pico_engine.Ast.{Node, Nodes, nil, cons, identifier, function, action, declaration}
use pico_engine.Generate.{cat}
use pico_engine.Schema.Queries.{Result, ok, err}

-- A step that only a result without an error reaches.
unfoldable pub and_then : {A B : Type 0} → Result A → (A → Result B) → Result B
and_then (err e) f = err e
and_then (ok a) f = f a

-- `ast.right.type === 'Function' || ast.right.type === 'Action'`
unfoldable pub is_late : Node → Bool
is_late (function ps body ret) = true
is_late (action label callee args setting) = true
is_late _ = false

module _ {S E : Type 0} (comp : Node → S → Result (E × S)) (declare : String → S → S) where
  -- `compiled`, and the compiler's state.
  abbrev pub Progress : Type 0
  Progress = List (String × E) × S

  -- `compiled[id] = comp(ast)`
  unfoldable pub compile_into : String → Node → Progress → Result Progress
  unfolding and_then
  compile_into id ast (compiled, s) =
      and_then (comp ast s) (λ (estree, after). ok (insert id estree compiled, after))

  unfoldable pub first_pass : Nodes → List String → Progress → Result (List String × Progress)
  unfolding and_then is_late compile_into
  first_pass nil ids st = ok (ids, st)
  first_pass (cons (declaration (identifier id) right doc) ds) ids (compiled, s) =
      let put_off = first_pass ds (ids ++ (id ∷ [])) (compiled, declare id s) in
      if has id ids
      then err (cat ("Duplicate declaration: " ∷ id ∷ []))
      else if is_late right
      then put_off
      else and_then (compile_into id (declaration (identifier id) right doc) (compiled, s))
          (λ st. first_pass ds (ids ++ (id ∷ [])) st)
  first_pass (cons _ ds) ids st = err "Only declarations should be in this block"

  -- `if (!compiled[id])`, where an inherited name counts as compiled.
  unfoldable pub second_pass : Nodes → Progress → Result Progress
  unfolding and_then compile_into
  second_pass nil st = ok st
  second_pass (cons (declaration (identifier id) right doc) ds) (compiled, s) =
      let skipped = second_pass ds (compiled, s) in
      if marked id (keys compiled)
      then skipped
      else and_then (compile_into id (declaration (identifier id) right doc) (compiled, s))
          (λ st. second_pass ds st)
  second_pass (cons _ ds) st = second_pass ds st

  -- A result is missing for an inherited name that was not compiled.
  unfoldable pub declaration_block : Nodes → S → Result (List (Option E) × S)
  unfolding and_then first_pass second_pass
  declaration_block ds s = and_then (first_pass ds [] ([], s)) (λ (ids, st).
      and_then (second_pass ds st)
        (λ (compiled, after). ok (map (λ id. lookup id compiled) ids, after)))
