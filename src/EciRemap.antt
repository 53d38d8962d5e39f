-- ===== src/EciRemap.antt =====
-- pico-engine-core/src/eciRemap.ts: channel ids replaced in the entity state of an imported subtree.
pub mod Inverse
use pico_engine.Base.{
  String, Bool, true, false, ◌==◌, if◌then◌else◌, List, [], ◌∷◌, Option, none, some, truthy,
  or_else, lookup, insert, is_proto,
}

-- A JSON value; a number, a boolean or null by its text. A function is what a text can be replaced
-- by that every object inherits.
mutual
  pub data Value : Type 0 where
    text : String → Value
    scalar : String → Value
    inherited : String → Value
    array : Values → Value
    object : Members → Value

  pub data Values : Type 0 where
    nil : Values
    cons : Value → Values → Values

  pub data Members : Type 0 where
    no_member : Members
    member : String → Value → Members → Members

abbrev pub EciMap : Type 0
EciMap = List (String × String)

-- A text, and what it is where `eciMap[value]` is truthy.
unfoldable pub remap_text : EciMap → String → Value
remap_text eci_map s = elim (lookup s eci_map) [
  | none ↦ if is_proto s then inherited s else text s
  | some to ↦ if to == "" then text s else text to
]

unfoldable mutual
  pub remap_ecis_deep : EciMap → Value → Value
  remap_ecis_deep eci_map (text s) = remap_text eci_map s
  remap_ecis_deep eci_map (scalar s) = scalar s
  remap_ecis_deep eci_map (inherited s) = inherited s
  remap_ecis_deep eci_map (array vs) = array (remap_values eci_map vs)
  remap_ecis_deep eci_map (object ms) = object (remap_members eci_map ms)

  pub remap_values : EciMap → Values → Values
  remap_values eci_map nil = nil
  remap_values eci_map (cons v vs) = cons (remap_ecis_deep eci_map v) (remap_values eci_map vs)

  pub remap_members : EciMap → Members → Members
  remap_members eci_map no_member = no_member
  remap_members eci_map (member k v ms) =
      member k (remap_ecis_deep eci_map v) (remap_members eci_map ms)

-- `eciMap[key] ?? key`, for a key that no object inherits.
abbrev remap_key : EciMap → String → String
remap_key eci_map k = elim (lookup k eci_map) [ none ↦ k | some to ↦ to ]

unfoldable pub rekey : EciMap → Members → List (String × Value) → List (String × Value)
rekey eci_map no_member out = out
rekey eci_map (member k v ms) out = rekey eci_map ms (insert (remap_key eci_map k) v out)

unfoldable pub remap_child_ui_ecis_ent : EciMap → Value → List (String × Value)
unfolding remap_ecis_deep
remap_child_ui_ecis_ent eci_map v = elim (remap_ecis_deep eci_map v) [
  | object ms ↦ rekey eci_map ms []
  | _ ↦ []
]
