-- ===== src/EciRemap/Inverse.antt =====
-- pico-engine-core/src/eciRemap.ts: the replacement can be undone.
use pico_engine.Base.{
  String, true, false, ◌==◌, eq_iff, ◌≡◌, refl, ap, ◌∙◌, inl, inr, Bool-cases, Option-cases, [],
  ◌∷◌, none, some, lookup, has, is_proto, IsNodup, values, arith,
}
use mathlib.Core.Path.{ap₂}
use pico_engine.EciRemap.{
  Value, text, scalar, inherited, array, object, Values, nil, cons, Members, no_member, member,
  EciMap, remap_text, remap_ecis_deep, remap_values, remap_members,
}

-- The map back.
abbrev pub inverse : EciMap → EciMap
inverse [] = []
inverse ((old, new) ∷ m) = (new, old) ∷ inverse m

-- A text that is not "", that no object inherits, and that is no new id.
abbrev IsOld : EciMap → String → Type 0
IsOld m s = ((s == "") ≡ false) × (is_proto s ≡ false) × (has s (values m) ≡ false)

-- Each text of a value is such a one; no function stands in the value.
unfoldable mutual
  pub AllOld : EciMap → Value → Type 0
  AllOld m (text s) = IsOld m s
  AllOld m (scalar s) = Unit
  AllOld m (inherited s) = ⊥
  AllOld m (array vs) = AllOldValues m vs
  AllOld m (object ms) = AllOldMembers m ms

  pub AllOldValues : EciMap → Values → Type 0
  AllOldValues m nil = Unit
  AllOldValues m (cons v vs) = AllOld m v × AllOldValues m vs

  pub AllOldMembers : EciMap → Members → Type 0
  AllOldMembers m no_member = Unit
  AllOldMembers m (member k v ms) = AllOld m v × AllOldMembers m ms

-- No new id is "" or given twice.
abbrev pub IsInvertible : EciMap → Type 0
IsInvertible m = IsNodup (values m) × (has "" (values m) ≡ false)

lookup-has : (s to : String) (m : EciMap) → lookup s m ≡ some to → has to (values m) ≡ true
unfolding lookup has
lookup-has s to [] h = cc
lookup-has s to ((old, new) ∷ m) h = ground (arith, lookup-has s to m, eq_iff new to, h)

-- A new id leads back to the old one.
lookup-inverse :
    (s to : String) (m : EciMap)
    → IsNodup (values m)
    → lookup s m ≡ some to
    → lookup to (inverse m) ≡ some s
unfolding lookup
lookup-inverse s to [] n h = cc
lookup-inverse s to ((old, new) ∷ m) (a, n) h = elim (Bool-cases (old == s)) [
  | inl e ↦
      let same : new ≡ to = ground (arith, rw e at h) in
      rw ((eq_iff new to).1 same) (ap some ((eq_iff old s).0 e))
  | inr e ↦
      let later = rw e at h in
      let apart : (new == to) ≡ false = ground (arith, a, lookup-has s to m later, eq_iff new to) in
      rw apart (lookup-inverse s to m n later)
]

no_new : (s : String) (m : EciMap) → has s (values m) ≡ false → lookup s (inverse m) ≡ none
unfolding lookup has
no_new s [] h = refl
no_new s ((old, new) ∷ m) h = ground (arith, no_new s m, h)

remap_text-none :
    (m : EciMap) (s : String) → lookup s m ≡ none → is_proto s ≡ false → remap_text m s ≡ text s
unfolding remap_text
remap_text-none m s f own = rw (remap_text, f, own) refl

remap_text-some :
    (m : EciMap) (s to : String)
    → lookup s m ≡ some to
    → (to == "") ≡ false
    → remap_text m s ≡ text to
unfolding remap_text
remap_text-some m s to f full = rw (remap_text, f, full) refl

text-back :
    (m : EciMap) (s : String)
    → IsInvertible m
    → IsOld m s
    → remap_ecis_deep (inverse m) (remap_text m s) ≡ text s
unfolding remap_ecis_deep
text-back m s (n, e) (full, own, fresh) = elim (Option-cases (lookup s m)) [
  | inl f ↦
      ap (remap_ecis_deep (inverse m)) (remap_text-none m s f own)
      ∙ remap_text-none (inverse m) s (no_new s m fresh) own
  | inr (to, f) ↦
      let some_to : (to == "") ≡ false = ground (arith, e, lookup-has s to m f, eq_iff to "") in
      ap (remap_ecis_deep (inverse m)) (remap_text-some m s to f some_to)
      ∙ remap_text-some (inverse m) to s (lookup-inverse s to m n f) full
]

module _ (m : EciMap) (h : IsInvertible m) where
  mutual
    unfolding remap_ecis_deep AllOld

    undone : (v : Value) → AllOld m v → remap_ecis_deep (inverse m) (remap_ecis_deep m v) ≡ v
    undone (text s) o = text-back m s h o
    undone (scalar s) o = refl
    undone (inherited s) o = absurd o
    undone (array vs) o = ap array (undone_values vs o)
    undone (object ms) o = ap object (undone_members ms o)

    undone_values :
        (vs : Values) → AllOldValues m vs → remap_values (inverse m) (remap_values m vs) ≡ vs
    undone_values nil o = refl
    undone_values (cons v vs) (o, os) = ap₂ cons (undone v o) (undone_values vs os)

    undone_members :
        (ms : Members) → AllOldMembers m ms → remap_members (inverse m) (remap_members m ms) ≡ ms
    undone_members no_member o = refl
    undone_members (member k v ms) (o, os) = ap₂ (member k) (undone v o) (undone_members ms os)
