-- ===== src/PicoSchema/Types.antt =====
-- pico-engine-core/src/picoSchema.ts: the schemas. A constraint, an argument and the attributes of
-- an example are kept by their JSON text.
use Prim.Native.String.{◌++◌}
use pico_engine.Base.{String, Bool, List, Option}
use pico_engine.Generate.{join}

pub record SchemaAttr : Type 0 where
  pub name : String
  pub type : Option String
  pub required : Bool
  pub description : Option String
  pub pattern : Option String

pub record SchemaExample : Type 0 where
  pub name : String
  pub attrs : String

pub record EntryRef : Type 0 where
  pub domain : Option String
  pub name : Option String
  pub constraints : List String

pub record SchemaOperation : Type 0 where
  pub rule : String
  pub description : Option String
  pub select : Option String
  pub entry : List EntryRef
  pub attrs : List SchemaAttr
  pub examples : List SchemaExample

pub record SchemaQuery : Type 0 where
  pub name : String
  pub description : Option String
  pub args : List String
  pub returns : Option String
  pub examples : List SchemaExample

pub record RulesetSchema : Type 0 where
  pub description : Option String
  pub operations : List SchemaOperation
  pub queries : List SchemaQuery

pub record EventSource : Type 0 where
  pub rid : String
  pub rule : String

pub record EventExample : Type 0 where
  pub rid : String
  pub rule : String
  pub name : String
  pub attrs : String

pub record PicoEvent : Type 0 where
  pub domain : String
  pub name : String
  pub constraints : List String
  pub attrs : List SchemaAttr
  pub description : Option String
  pub sources : List EventSource
  pub examples : List EventExample

-- `types` holds two types, each with its source.
pub record Conflict : Type 0 where
  pub domain : String
  pub name : String
  pub constraints : List String
  pub attr : String
  pub types : List (String × EventSource)

pub record PicoQuery : Type 0 where
  pub rid : String
  pub query : SchemaQuery

pub record PicoSchema : Type 0 where
  pub rulesets : List (String × Option String)
  pub events : List PicoEvent
  pub queries : List PicoQuery
  pub conflicts : List Conflict

unfoldable pub entry_key : String → String → List String → String
entry_key domain name constraints =
    domain ++ (":" ++ (name ++ (":" ++ ("[" ++ (join "," constraints ++ "]")))))
