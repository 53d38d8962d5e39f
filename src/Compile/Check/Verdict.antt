-- ===== src/Compile/Check/Verdict.antt =====
-- When a source passes.
use pico_engine.Base.{String, ◌≡◌, ◌↔◌, ◌∙◌, sym, ap, refl, [], map}
use pico_engine.Ast.{Ruleset}
use pico_engine.Compile.Check.{
  Parsed, parsed_ruleset, no_ruleset, parse_thrown, Output, Compiled, compiled, compile_thrown,
  CheckResult, format_warning, check_compiled, check_parsed, check,
}

-- What a source gives that the parser and the compiler accept.
pub record Accepted (compile : Ruleset → Compiled) (p : Parsed) (r : CheckResult) : Type 0 where
  ast : Ruleset
  output : Output
  parsed : p ≡ parsed_ruleset ast
  made : compile ast ≡ compiled output
  schema_kept : r.schema ≡ output.schema
  warnings_kept : r.warnings ≡ map format_warning output.warnings

compiled_verdict :
    (compile : Ruleset → Compiled) (ast : Ruleset) (c : Compiled)
    → compile ast ≡ c
    → ((check_compiled c).errors ≡ []) ↔ Accepted compile (parsed_ruleset ast) (check_compiled c)
unfolding check_compiled
compiled_verdict compile ast (compile_thrown e) h = (
  λ k. cc,
  λ a.
      let same : ast ≡ a.ast = cc in
      let clash : compile_thrown e ≡ compiled a.output = sym h ∙ ap compile same ∙ a.made in cc,
)
compiled_verdict compile ast (compiled out) h = (
  λ k. record {
    ast = ast;
    output = out;
    parsed = refl;
    made = h;
    schema_kept = refl;
    warnings_kept = refl;
  },
  λ a. refl,
)

parsed_verdict :
    (compile : Ruleset → Compiled) (p : Parsed)
    → ((check_parsed compile p).errors ≡ []) ↔ Accepted compile p (check_parsed compile p)
unfolding check_parsed
parsed_verdict compile (parse_thrown e) = (λ k. cc, λ a. cc)
parsed_verdict compile no_ruleset = (λ k. cc, λ a. cc)
parsed_verdict compile (parsed_ruleset ast) = compiled_verdict compile ast (compile ast) refl

-- A source has no error exactly when the parser makes a ruleset of it and the compiler compiles
-- that; the schema is the compiler's then, and so are the warnings, with their places.
pub check-Accepted :
    (parse : String → Parsed) (compile : Ruleset → Compiled) (src : String)
    → ((check parse compile src).errors ≡ [])
      ↔ Accepted compile (parse src) (check parse compile src)
unfolding check
check-Accepted parse compile src = parsed_verdict compile (parse src)
