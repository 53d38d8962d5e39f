-- ===== src/Compile/Parameters/Order.antt =====
-- The parameter lists that pass.
use pico_engine.Base.{
  String, ◌≡◌, ◌↔◌, refl, Bool, true, false, not, ◌&&◌, if◌then◌else◌, List, [], ◌∷◌, none, All,
  has, IsNodup, marked, is_proto, eq_iff, arith,
}
use pico_engine.Ast.{Nodes}
use pico_engine.Schema.Queries.{Param, params_from, names_of}
use pico_engine.Compile.Parameters.{check_params, parameters_error}

abbrev pub all_default : List Param → Bool
all_default [] = true
all_default ((id, default) ∷ ps) = default && all_default ps

-- No parameter without a default stands behind one with a default.
abbrev pub defaults_last : List Param → Bool
defaults_last [] = true
defaults_last ((id, default) ∷ ps) = if default then all_default ps else defaults_last ps

abbrev fresh : List String → List Param → Bool
fresh used [] = true
fresh used ((id, default) ∷ ps) = not (marked id used) && fresh (id ∷ used) ps

abbrev ordered : Bool → List Param → Bool
ordered seen ps = if seen then all_default ps else defaults_last ps

check_params-ordered :
    (ps : List Param) (used : List String) (seen : Bool)
    → (check_params ps used seen ≡ none) ↔ ((fresh used ps ≡ true) × (ordered seen ps ≡ true))
unfolding check_params
check_params-ordered [] used true = (λ h. (refl, refl), λ h. refl)
check_params-ordered [] used false = (λ h. (refl, refl), λ h. refl)
check_params-ordered ((id, true) ∷ ps) used true =
    let h = check_params-ordered ps (id ∷ used) true in (λ k. ground arith, λ (f, o). ground arith)
check_params-ordered ((id, true) ∷ ps) used false =
    let h = check_params-ordered ps (id ∷ used) true in (λ k. ground arith, λ (f, o). ground arith)
check_params-ordered ((id, false) ∷ ps) used true = (λ k. ground arith, λ (f, o). ground arith)
check_params-ordered ((id, false) ∷ ps) used false =
    let h = check_params-ordered ps (id ∷ used) false in (λ k. ground arith, λ (f, o). ground arith)

unused-cons :
    (id : String) (used names : List String)
    → All (λ n. marked n (id ∷ used) ≡ false) names
      ↔ (All (λ n. marked n used ≡ false) names × (has id names ≡ false))
unfolding marked has
unused-cons id used [] = (λ h. (tt, refl), λ h. tt)
unused-cons id used (n ∷ names) =
    let rest = unused-cons id used names in
    (
      λ (h, hs). ground (arith, eq_iff id n, eq_iff n id, rest.0 hs),
      λ ((h, hs), o). ground (arith, eq_iff id n, eq_iff n id, rest),
    )

-- No name stands twice, and none is used already.
fresh-IsNodup :
    (ps : List Param) (used : List String)
    → (fresh used ps ≡ true)
      ↔ (IsNodup (names_of ps) × All (λ n. marked n used ≡ false) (names_of ps))
fresh-IsNodup [] used = (λ h. (tt, tt), λ h. refl)
fresh-IsNodup ((id, default) ∷ ps) used =
    let rest = fresh-IsNodup ps (id ∷ used) in
    let split = unused-cons id used (names_of ps) in
    (λ h. ground arith, λ ((o, d), (h, hs)). ground arith)

-- A parameter list passes exactly when no name stands twice, no name is one that every
-- JavaScript object inherits, and no parameter without a default stands behind one with a default.
pub parameters_error-IsNodup :
    (params : Nodes)
    → (parameters_error params ≡ none) ↔ (
        IsNodup (names_of (params_from params))
        × All (λ n. is_proto n ≡ false) (names_of (params_from params))
        × (defaults_last (params_from params) ≡ true))
unfolding parameters_error marked has
parameters_error-IsNodup params =
    let ps = params_from params in
    let checks = check_params-ordered ps [] false in
    let names = fresh-IsNodup ps [] in
    (
      λ h. let (f, o) = checks.0 h in let (d, p) = names.0 f in (d, p, o),
      λ (d, p, o). checks.1 (names.1 (d, p), o),
    )
