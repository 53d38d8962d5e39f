-- ===== src/Derive/Where.antt =====
-- deriveSchema.js, `literalString`, `eventAttrName` and `constraintsFromWhere`: what the `where`
-- clause of an event expression says of single attributes.
pub mod Conjuncts
pub mod Soundness
use pico_engine.Base.{
  String, Bool, true, false, ◌==◌, ◌&&◌, if◌then◌else◌, List, [], ◌∷◌, ◌++◌, Option, none, some,
  truthy,
}
use pico_engine.Ast.{Node, application, domain_identifier, infix_operator, string_value, first_arg}

pub data Constraint : Type 0 where
  const : String → String → Constraint
  pattern_of : String → String → Constraint

-- `event:attr("name")`; the tests on `args` come after those on the callee, and a missing
-- argument fails them as one that is no string does.
unfoldable pub event_attr_name : Node → Option String
unfolding string_value first_arg
event_attr_name (application (domain_identifier domain value) args) =
    if domain == "event" && value == "attr" then string_value (first_arg args) else none
event_attr_name _ = none

-- `if (attr && lit != null)`
unfoldable pub equality_constraint : Option String → Option String → List Constraint
equality_constraint (some attr) (some lit) = const attr lit ∷ []
equality_constraint _ _ = []

unfoldable pub constraints_from_where : Node → List Constraint
constraints_from_where (infix_operator op left right) =
    let both = constraints_from_where left ++ constraints_from_where right in
    if op == "&&"
    then both
    else if op == "=="
    then equality_constraint (truthy (event_attr_name left)) (string_value right)
    else []
constraints_from_where _ = []
