-- ===== src/Samples/Texts.antt =====
-- The theorems on printed expressions, at concrete ones.
use pico_engine.Base.{◌≡◌}
use pico_engine.Ast.{identifier, infix_operator}
use pico_engine.Generate.{gen}
use pico_engine.Generate.Brackets.{gen-regrouped}

gen-regrouped_example :
    gen 0
      (infix_operator "-" (identifier "a") (infix_operator "-" (identifier "b") (identifier "c")))
    ≡ gen 0
        (infix_operator "-" (infix_operator "-" (identifier "a") (identifier "b")) (identifier "c"))
gen-regrouped_example = gen-regrouped 0 "-" (identifier "a") (identifier "b") (identifier "c")
