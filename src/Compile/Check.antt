-- ===== src/Compile/Check.antt =====
-- check.js: what is wrong with a ruleset's source. The parser and the compiler are arguments: each
-- gives a result or throws. Line and column are kept as their text.
pub mod Verdict
use pico_engine.Base.{String, Bool, true, false, List, [], ◌∷◌, Option, none, some, map}
use pico_engine.Ast.{Ruleset}
use pico_engine.Generate.{cat}
use pico_engine.Schema.Build.{RulesetSchema}

-- A message with its place in the source, as an error or a warning carries it.
pub record Thrown : Type 0 where
  pub message : String
  pub line : Option String
  pub column : Option String

pub record Diagnostic : Type 0 where
  pub message : String
  pub line : Option String
  pub column : Option String
  pub severity : String

-- A template prints a missing column as `undefined`.
unfoldable pub column_text : Option String → String
column_text none = "undefined"
column_text (some c) = c

unfoldable pub at_line : Option String → Option String → String
unfolding column_text
at_line none column = ""
at_line (some l) column = cat (" at " ∷ l ∷ ":" ∷ column_text column ∷ [])

-- A warning's suffix needs both.
unfoldable pub at_place : Option String → Option String → String
at_place (some l) (some c) = cat (" at " ∷ l ∷ ":" ∷ c ∷ [])
at_place _ _ = ""

unfoldable pub format_warning : Thrown → Diagnostic
unfolding at_place
format_warning w = record {
  message = cat (w.message ∷ at_place w.line w.column ∷ []);
  line = w.line;
  column = w.column;
  severity = "warning";
}

-- `errorFromParse` and `errorFromCompile`, where the place is read already.
unfoldable pub error_from : Thrown → Diagnostic
unfolding at_line
error_from e = record {
  message = cat (e.message ∷ at_line e.line e.column ∷ []);
  line = e.line;
  column = e.column;
  severity = "error";
}

pub data Parsed : Type 0 where
  parsed_ruleset : Ruleset → Parsed
  no_ruleset : Parsed
  parse_thrown : Thrown → Parsed

pub record Output : Type 0 where
  pub rid : Option String
  pub schema : Option RulesetSchema
  pub warnings : List Thrown

pub data Compiled : Type 0 where
  compiled : Output → Compiled
  compile_thrown : Thrown → Compiled

pub record CheckResult : Type 0 where
  pub ok : Bool
  pub rid : Option String
  pub schema : Option RulesetSchema
  pub errors : List Diagnostic
  pub warnings : List Diagnostic

abbrev failed : Diagnostic → CheckResult
failed d = record { ok = false; rid = none; schema = none; errors = d ∷ []; warnings = [] }

abbrev expected_a_ruleset : Diagnostic
expected_a_ruleset = record {
  message = "Expected a ruleset";
  line = none;
  column = none;
  severity = "error";
}

unfoldable pub check_compiled : Compiled → CheckResult
unfolding format_warning error_from
check_compiled (compile_thrown e) = failed (error_from e)
check_compiled (compiled out) = record {
  ok = true;
  rid = out.rid;
  schema = out.schema;
  errors = [];
  warnings = map format_warning out.warnings;
}

unfoldable pub check_parsed : (Ruleset → Compiled) → Parsed → CheckResult
unfolding error_from check_compiled
check_parsed compile (parse_thrown e) = failed (error_from e)
check_parsed compile no_ruleset = failed expected_a_ruleset
check_parsed compile (parsed_ruleset ast) = check_compiled (compile ast)

unfoldable pub check : (String → Parsed) → (Ruleset → Compiled) → String → CheckResult
unfolding check_parsed
check parse compile src = check_parsed compile (parse src)
