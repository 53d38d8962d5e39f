-- ===== src/Emits/Conditions/Calls.antt =====
-- The prechecks of a condition are the shared functions that it calls as its terms.
use pico_engine.Base.{
  String, ◌==◌, ◌≡◌, ◌↔◌, inl, inr, refl, Bool, true, false, not, ◌||◌, ◌&&◌, List, [], ◌∷◌, Option,
  none, some, map, has, marked, is_proto, IsNodup, In, eq_iff, eq_refl, Bool-cases, Option-cases,
  arith,
}
use pico_engine.Ast.{Node, Nodes, application, identifier}
use pico_engine.Emits.Prechecks.{Params, Bindings, build_pre_bindings}
use pico_engine.Emits.Conditions.{
  with_args, function_of, collect_boolean_terms, precheck_terms, precheck_term, precheck_of_args,
  precheck_entry_from_call, prechecks_from_condition, argument_list, params_of,
  shared_precheck_call_in_term,
}
use pico_engine.Emits.Conditions.Terms.{Calls, collect_boolean_terms-Calls}

function_of-precheck_of_args :
    (fn : String) (call : Node) (args : List Node) (ps : List String) (pre : Bindings)
    → function_of (precheck_of_args fn call args ps pre) ≡ fn
unfolding precheck_of_args
function_of-precheck_of_args fn call args ps pre = ground arith

function_of-precheck :
    (fn : String) (args : Node) (ps : List String) (pre : Bindings)
    → function_of (precheck_entry_from_call fn args ps pre) ≡ fn
unfolding precheck_entry_from_call
function_of-precheck fn args ps pre =
    elim (argument_list args)
      as (λ l.
        function_of (elim l [
          | [] ↦ with_args fn []
          | a ∷ as' ↦ precheck_of_args fn (application (identifier fn) args) (a ∷ as') ps pre
        ])
        ≡ fn) [ [] ↦ refl | a ∷ as' ↦ function_of-precheck_of_args fn _ (a ∷ as') ps pre ]

is_call : String → Option (String × Node) → Bool
is_call fn none = false
is_call fn (some (f, args)) = f == fn

-- One of the terms is a call of the shared function `fn`.
called : String → List String → List Node → Bool
unfolding is_call
called fn shares [] = false
called fn shares (t ∷ ts) =
    is_call fn (shared_precheck_call_in_term t shares) || called fn shares ts

module _ (shares : List String) (pre : Bindings) (params : Params) where
  abbrev found_in : List Node → List String → List String
  found_in ts seen = map function_of (precheck_terms ts shares pre params seen)

  has-found :
      (fn : String) (ts : List Node) (seen : List String)
      → has fn (found_in ts seen) ≡ (called fn shares ts && not (marked fn seen))
  unfolding called has precheck_terms precheck_term marked
  has-found fn [] seen = refl
  has-found fn (t ∷ ts) seen = elim (Option-cases (shared_precheck_call_in_term t shares)) [
    | inl e ↦ rw (e, precheck_term) (has-found fn ts seen)
    | inr ((f, args), e) ↦
        rw (e, precheck_term)
          (ground (
            arith,
            has-found fn ts seen,
            has-found fn ts (f ∷ seen),
            eq_iff f fn,
            function_of-precheck f args (params_of f params) pre,
          ))
  ]

  unmarked :
      (fn : String) (ts : List Node)
      → has fn (found_in ts []) ≡ true
      → (called fn shares ts ≡ true) × (is_proto fn ≡ false)
  unfolding marked has
  unmarked fn ts h = ground (arith, has-found fn ts [])

  has-called :
      (fn : String) (ts : List Node)
      → called fn shares ts ≡ true
      → is_proto fn ≡ false
      → has fn (found_in ts []) ≡ true
  unfolding marked has
  has-called fn ts c p = ground (arith, has-found fn ts [])

  -- A name just added is found no more.
  absent :
      (f : String) (ts : List Node) (seen : List String) → has f (found_in ts (f ∷ seen)) ≡ false
  unfolding marked has
  absent f ts seen = ground (arith, has-found f ts (f ∷ seen), eq_refl f)

  found_in-IsNodup : (ts : List Node) (seen : List String) → IsNodup (found_in ts seen)
  unfolding precheck_terms precheck_term
  found_in-IsNodup [] seen = tt
  found_in-IsNodup (t ∷ ts) seen = elim (Option-cases (shared_precheck_call_in_term t shares)) [
    | inl e ↦ rw (e, precheck_term) (found_in-IsNodup ts seen)
    | inr ((f, args), e) ↦
        rw (e, precheck_term)
          (elim (Bool-cases (marked f seen)) [
            | inl old ↦ rw old (found_in-IsNodup ts seen)
            | inr new ↦
                rw (new, function_of-precheck f args (params_of f params) pre)
                  (absent f ts seen, found_in-IsNodup ts (f ∷ seen))
          ])
  ]

shared_call :
    (fn : String) (shares : List String) (t : Node)
    → is_call fn (shared_precheck_call_in_term t shares) ≡ true
    → (has fn shares ≡ true) × (args : Node) × (application (identifier fn) args ≡ t)
unfolding is_call shared_precheck_call_in_term
shared_call fn shares (application (identifier f) args) h = elim (Bool-cases (has f shares)) [
  | inl e ↦ let same : f ≡ fn = (eq_iff f fn).0 (rw e at h) in (rw (← same) e, args, rw same)
  | inr e ↦ cc
]
shared_call fn shares (application c args) h = cc
shared_call fn shares _ h = cc

called_sound :
    (fn : String) (shares : List String) (ts : List Node)
    → called fn shares ts ≡ true
    → (has fn shares ≡ true) × (args : Node) × In (application (identifier fn) args) ts
unfolding called
called_sound fn shares [] h = cc
called_sound fn shares (t ∷ ts) h =
    elim (Bool-cases (is_call fn (shared_precheck_call_in_term t shares))) [
      | inl e ↦ let (s, args, same) = shared_call fn shares t e in (s, args, inl same)
      | inr e ↦ let (s, args, i) = called_sound fn shares ts (rw e at h) in (s, args, inr i)
    ]

shared_call_self :
    (fn : String) (shares : List String) (args : Node)
    → has fn shares ≡ true
    → is_call fn (shared_precheck_call_in_term (application (identifier fn) args) shares) ≡ true
unfolding is_call shared_precheck_call_in_term
shared_call_self fn shares args s = rw s (eq_refl fn)

called_complete :
    (fn : String) (shares : List String) (args : Node) (ts : List Node)
    → has fn shares ≡ true
    → In (application (identifier fn) args) ts
    → called fn shares ts ≡ true
unfolding called
called_complete fn shares args [] s i = absurd i
called_complete fn shares args (t ∷ ts) s (inl e) = rw (← e, shared_call_self fn shares args s)
called_complete fn shares args (t ∷ ts) s (inr i) =
    ground (arith, called_complete fn shares args ts s i)

-- The prechecks that the code derives from a condition are exactly the functions listed in `shares`
-- that the condition calls by name as one of its terms, except names that every JavaScript object
-- inherits. The terms are those under `&&` and, unlike what docs/design/pico-schemas.md says of
-- them, under `||` as well; a call under `not` is no term of its own, though that text counts it.
pub prechecks-Calls :
    (fn : String) (condition : Node) (shares : List String) (prelude : Nodes) (params : Params)
    → (has fn (map function_of (prechecks_from_condition condition shares prelude params)) ≡ true)
      ↔ ((has fn shares ≡ true) × (is_proto fn ≡ false) × (args : Node) × Calls fn args condition)
unfolding prechecks_from_condition
prechecks-Calls fn condition shares prelude params =
    let ts = collect_boolean_terms condition in
    let pre = build_pre_bindings prelude in
    (
      λ h.
          let both : (called fn shares ts ≡ true) × (is_proto fn ≡ false) =
            unmarked shares pre params fn ts h in
          let (s, args, i) = called_sound fn shares ts both.0 in
          (s, both.1, args, (collect_boolean_terms-Calls fn args condition).0 i),
      λ (s, plain, args, c).
          has-called shares pre params fn ts
            (called_complete fn shares args ts s
              ((collect_boolean_terms-Calls fn args condition).1 c))
            plain,
    )

-- No function is listed twice.
pub prechecks-IsNodup :
    (condition : Node) (shares : List String) (prelude : Nodes) (params : Params)
    → IsNodup (map function_of (prechecks_from_condition condition shares prelude params))
unfolding prechecks_from_condition
prechecks-IsNodup condition shares prelude params =
    found_in-IsNodup shares (build_pre_bindings prelude) params (collect_boolean_terms condition) []
