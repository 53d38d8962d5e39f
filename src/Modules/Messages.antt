-- ===== src/Modules/Messages.antt =====
-- pico-engine-core/src/moduleDependencies.ts: formatCycle turns a cycle to start where asked.
use pico_engine.Base.{
  ℕ, suc, String, ◌==◌, ◌≡◌, refl, ap, subst, sym, ◌∙◌, inl, inr, Bool-cases, eq_iff, Option-cases,
  some, List, [], ◌∷◌, ◌++◌, In, In-append, arith,
}
use mathlib.Core.List.{append_assoc}
use pico_engine.Modules.Graph.{Graph, index_of, drop, take, pop, cycle_from}
use pico_engine.Modules.Walks.{IsWalk, IsCycle, IsWalk-tail, pop-snoc, index_of-In}

-- A list cut before the first place of one of its elements.
cut :
    (p : List String) (x : String) (n : ℕ)
    → index_of x p ≡ some n
    → (rest : List String) × (drop n p ≡ x ∷ rest) × (take n p ++ (x ∷ rest) ≡ p)
unfolding index_of drop take
cut [] x n h = cc
cut (y ∷ p) x n h = elim (Bool-cases (y == x)) [
  | inl e ↦
      let here : 0 ≡ n = ground (arith, rw e at h) in
      rw (← here) (p, ap (λ z. z ∷ p) ((eq_iff y x).0 e), ap (λ z. z ∷ p) (sym ((eq_iff y x).0 e)))
  | inr e ↦ elim (Option-cases (index_of x p)) [
    | inl f ↦ absurd (ground (arith, rw (e, f) at h))
    | inr (m, f) ↦
        let there : suc m ≡ n = ground (arith, rw (e, f) at h) in
        let (rest, d, t) = cut p x m f in rw (← there) (rest, d, ap (λ r. y ∷ r) t)
  ]
]

module _ (g : Graph) where
  right_part : (p q : List String) → IsWalk g (p ++ q) → IsWalk g q
  right_part [] q h = h
  right_part (x ∷ p) q h = right_part p q (IsWalk-tail g x (p ++ q) h)

  left_part :
      (p : List String) (x : String) (q : List String)
      → IsWalk g (p ++ (x ∷ q))
      → IsWalk g (p ++ (x ∷ []))
  left_part [] x q h = tt
  left_part (y ∷ []) x q (e, h) = (e, tt)
  left_part (y ∷ z ∷ p) x q (e, h) = (e, left_part (z ∷ p) x q h)

  glue :
      (p : List String) (x : String) (q : List String)
      → IsWalk g (p ++ (x ∷ []))
      → IsWalk g (x ∷ q)
      → IsWalk g (p ++ (x ∷ q))
  glue [] x q h k = k
  glue (y ∷ []) x q (e, h) k = (e, k)
  glue (y ∷ z ∷ p) x q (e, h) k = (e, glue (z ∷ p) x q h k)

  turned :
      (a : String) (mid front rest : List String) (p : String)
      → front ++ (p ∷ rest) ≡ a ∷ mid
      → IsWalk g ((a ∷ mid) ++ (a ∷ []))
      → IsWalk g ((p ∷ rest) ++ (front ++ (p ∷ [])))
  turned a mid [] rest p e w =
      let same : a ≡ p = ground (arith, e) in
      subst (λ z. IsWalk g ((p ∷ rest) ++ (z ∷ []))) same
        (subst (λ l. IsWalk g (l ++ (a ∷ []))) (sym e) w)
  turned a mid (f ∷ front) rest p e w =
      let same : f ≡ a = ground (arith, e) in
      let whole : IsWalk g ((f ∷ front) ++ ((p ∷ rest) ++ (f ∷ []))) =
        subst (IsWalk g) (append_assoc (f ∷ front) (p ∷ rest) (f ∷ [])) (
          subst (λ z. IsWalk g (((f ∷ front) ++ (p ∷ rest)) ++ (z ∷ []))) (sym same)
            (subst (λ l. IsWalk g (l ++ (a ∷ []))) (sym e) w)) in
      glue (p ∷ rest) f (front ++ (p ∷ [])) (right_part (f ∷ front) ((p ∷ rest) ++ (f ∷ [])) whole)
        (left_part (f ∷ front) p (rest ++ (f ∷ [])) whole)

  In-open : (a p : String) (mid : List String) → In p (a ∷ (mid ++ (a ∷ []))) → In p (a ∷ mid)
  In-open a p mid (inl e) = inl e
  In-open a p mid (inr i) = elim (In-append p mid (a ∷ []) i) [
    | inl j ↦ inr j
    | inr j ↦ elim j [ inl e ↦ inl e | inr k ↦ absurd k ]
  ]

  -- The message of a cycle that has the ruleset in it is a cycle too, and it starts and ends with
  -- the ruleset.
  pub cycle_from-IsCycle :
      (c : List String) (p : String)
      → IsCycle g c
      → In p c
      → (m : List String) × (cycle_from c p ≡ p ∷ (m ++ (p ∷ []))) × IsWalk g (cycle_from c p)
  unfolding cycle_from
  cycle_from-IsCycle c p (a, mid, e, w) i =
      let opened : pop c ≡ a ∷ mid = ap pop e ∙ pop-snoc (a ∷ mid) a in
      let (n, f) = index_of-In (a ∷ mid) p (In-open a p mid (subst (In p) e i)) in
      let (rest, d, t) = cut (a ∷ mid) p n f in
      let front = take n (a ∷ mid) in
      let shape : cycle_from c p ≡ (p ∷ rest) ++ (front ++ (p ∷ [])) =
        rw (cycle_from, opened, f, opened, d) refl in
      (
        rest ++ front,
        shape ∙ ap (λ r. p ∷ r) (sym (append_assoc rest front (p ∷ []))),
        subst (IsWalk g) (sym shape) (turned a mid front rest p t (subst (IsWalk g) e w)),
      )
