-- ===== src/Mcp.antt =====
-- packages/pico-engine/mcp/schemaToZod.js: the shape of a tool's input from a schema's attributes.
-- A zod type is kept as what it is built from. `valid` tells which patterns `new RegExp` accepts.
pub mod Patterns
use Prim.Native.Char.{Char}
use Prim.Native.String.{◌++◌ as ◌<>◌}
use pico_engine.Base.{
  ℕ, suc, String, Bool, true, false, not, ◌==◌, ◌&&◌, if◌then◌else◌, List, [], ◌∷◌, Option, none,
  some, truthy, has, insert,
}
use pico_engine.Generate.{is_code}
use pico_engine.Derive.Entries.{Attr}

-- `z.number()`, `z.boolean()`, `z.array(z.any())`, `z.record(z.any())` and `z.string()`.
pub data Kind : Type 0 where
  numbers booleans arrays records strings : Kind

pub record Field : Type 0 where
  pub kind : Kind
  pub describe : Option String
  pub regex : Option String
  pub optional : Bool

abbrev letters : List String
letters =
    "a" ∷ "b" ∷ "c" ∷ "d" ∷ "e" ∷ "f" ∷ "g" ∷ "h" ∷ "i" ∷ "j" ∷ "k" ∷ "l" ∷ "m" ∷ "n" ∷ "o" ∷ "p"
    ∷ "q" ∷ "r" ∷ "s" ∷ "t" ∷ "u" ∷ "v" ∷ "w" ∷ "x" ∷ "y" ∷ "z" ∷ []

lower_char : ℕ → List String → Char → String
lower_char n [] c = String.◌∷◌ c ""
lower_char n (s ∷ ss) c = let later = lower_char (suc n) ss c in if is_code n c then s else later

-- `toLowerCase()` of a text of ASCII characters.
unfoldable pub to_lower_case : String → String
unfolding lower_char
to_lower_case String.[] = ""
to_lower_case (String.◌∷◌ c s) = lower_char 65 letters c <> to_lower_case s

-- `String(attr.type || "string").toLowerCase()`
unfoldable pub type_name : String → String
unfolding to_lower_case
type_name kind = if kind == "" then "string" else to_lower_case kind

unfoldable pub kind_of : String → Kind
unfolding has
kind_of t =
    if has t ("number" ∷ "integer" ∷ "int" ∷ [])
    then numbers
    else if has t ("boolean" ∷ "bool" ∷ [])
    then booleans
    else if has t ("array" ∷ "list" ∷ [])
    then arrays
    else if has t ("map" ∷ "object" ∷ "json" ∷ [])
    then records
    else strings

-- `if (attr.pattern && t === "string")`, where an invalid pattern is passed over.
unfoldable pub regex_of : (String → Bool) → String → Option String → Option String
regex_of valid t none = none
regex_of valid t (some p) = if t == "string" && valid p then some p else none

unfoldable pub zod_for_attr : (String → Bool) → Attr → Field
unfolding type_name kind_of regex_of
zod_for_attr valid a = record {
  kind = kind_of (type_name a.kind);
  describe = truthy a.description;
  regex = regex_of valid (type_name a.kind) (truthy a.pattern);
  optional = not a.required;
}

unfoldable pub shape_from :
    (String → Bool) → List Attr → List (String × Field) → List (String × Field)
unfolding zod_for_attr
shape_from valid [] shape = shape
shape_from valid (a ∷ as') shape =
    shape_from valid as'
      (if a.name == "" then shape else insert a.name (zod_for_attr valid a) shape)

unfoldable pub attrs_to_zod_shape : (String → Bool) → List Attr → List (String × Field)
unfolding shape_from
attrs_to_zod_shape valid attrs = shape_from valid attrs []
