-- ===== src/Compile/Declarations/Passes.antt =====
-- The order in which a block's declarations are compiled.
use pico_engine.Base.{
  String, ◌≡◌, ◌∙◌, refl, ap, inl, inr, Bool, true, false, not, if◌then◌else◌, List, [], ◌∷◌, ◌++◌,
  Option, map, has, has-append, keys, has-keys-insert, marked, lookup, insert, eq_iff, arith,
  Bool-cases,
}
use pico_engine.Ast.{Node, Nodes, nil, cons, identifier, declaration, DocComment}
use pico_engine.Schema.Queries.{Result, ok}
use pico_engine.Compile.Declarations.{
  and_then, is_late, compile_into, first_pass, second_pass, declaration_block,
}

-- A compilation that only notes its calls.
abbrev pub noted : Node → List Node → Result (Node × List Node)
noted ast calls = ok (ast, calls ++ (ast ∷ []))

abbrev pub ignored : String → List Node → List Node
ignored id calls = calls

-- Declarations of names, none twice or in `used`, and none that every object inherits.
abbrev pub Fresh : List String → Nodes → Type 0
Fresh used nil = Unit
Fresh used (cons (declaration (identifier id) right doc) ds) =
    (marked id used ≡ false) × Fresh (used ++ (id ∷ [])) ds
Fresh used (cons _ ds) = ⊥

-- The declarations of functions, or all others.
abbrev pub those : Bool → Nodes → List Node
those late nil = []
those late (cons (declaration left right doc) ds) =
    let rest = those late ds in
    if late
    then (if is_late right then declaration left right doc ∷ rest else rest)
    else if is_late right
    then rest
    else declaration left right doc ∷ rest
those late (cons _ ds) = those late ds

-- For the second pass: the names that are compiled already are those of no function.
abbrev Ready : List (String × Node) → Nodes → Type 0
Ready compiled nil = Unit
Ready compiled (cons (declaration (identifier id) right doc) ds) =
    (marked id (keys compiled) ≡ not (is_late right)) × Ready compiled ds
Ready compiled (cons _ ds) = ⊥

append_step : (xs : List Node) (y : Node) (ys : List Node) → (xs ++ (y ∷ [])) ++ ys ≡ xs ++ (y ∷ ys)
append_step [] y ys = refl
append_step (x ∷ xs) y ys = cc (append_step xs y ys)

append_none : (xs : List Node) → xs ++ [] ≡ xs
append_none [] = refl
append_none (x ∷ xs) = cc (append_none xs)

-- A name that is used does not come up again, so what is compiled for it leaves the others alone.
Ready-insert :
    (id : String) (v : Node) (compiled : List (String × Node)) (used : List String) (ds : Nodes)
    → has id used ≡ true
    → Fresh used ds
    → Ready compiled ds
    → Ready (insert id v compiled) ds
unfolding marked
Ready-insert id v compiled used nil h f r = tt
Ready-insert id v compiled used (cons (declaration (identifier n) right doc) ds) h (new, f) (e, r) =
    (
      ground (arith, has-keys-insert id n v compiled, eq_iff id n),
      Ready-insert id v compiled (used ++ (n ∷ [])) ds (ground (arith, has-append id used (n ∷ [])))
          f r,
    )
Ready-insert id v compiled used (cons _ ds) h f r = absurd f

second_pass-those :
    (ds : Nodes) (used : List String) (compiled : List (String × Node)) (calls : List Node)
    → Fresh used ds
    → Ready compiled ds
    → (after : List (String × Node)) × (second_pass noted ignored ds (compiled, calls)
        ≡ ok (after, calls ++ those true ds))
unfolding second_pass and_then compile_into has
second_pass-those nil used compiled calls f r = (compiled, rw (append_none calls) refl)
second_pass-those (cons (declaration (identifier id) right doc) ds) used compiled calls (new, f)
      (e, r) =
    let dec = declaration (identifier id) right doc in
    elim (Bool-cases (is_late right)) [
      | inl late ↦
          let open_yet : marked id (keys compiled) ≡ false = rw late at e in
          let here : has id (used ++ (id ∷ [])) ≡ true =
            ground (arith, has-append id used (id ∷ []), eq_iff id id) in
          let (after, p) =
            second_pass-those ds (used ++ (id ∷ [])) (insert id dec compiled) (calls ++ (dec ∷ []))
              f (Ready-insert id dec compiled (used ++ (id ∷ [])) ds here f r) in
          (
            after,
            rw (open_yet, late)
                (p ∙ ap (λ z. ok (after, z)) (append_step calls dec (those true ds))),
          )
      | inr early ↦
          let compiled_yet : marked id (keys compiled) ≡ true = rw early at e in
          let (after, p) = second_pass-those ds (used ++ (id ∷ [])) compiled calls f r in
          (after, rw (compiled_yet, early) p)
    ]
second_pass-those (cons _ ds) used compiled calls f r = absurd f

-- What the first pass leaves behind.
record Passed (ds : Nodes) (ids : List String) (compiled : List (String × Node)) (calls : List Node)
    : Type 0 where
  names : List String
  done : List (String × Node)
  result :
      first_pass noted ignored ds ids (compiled, calls)
      ≡ ok (names, (done, calls ++ those false ds))
  kept : (x : String) → has x ids ≡ true → has x (keys done) ≡ has x (keys compiled)
  ready : Ready done ds

module _ (id : String) (right : Node) (doc : Option DocComment) (ds : Nodes) (ids : List String)
    (compiled : List (String × Node)) (calls : List Node) (new : marked id ids ≡ false) where
  Passed-late :
      is_late right ≡ true
      → has id (keys compiled) ≡ false
      → Passed ds (ids ++ (id ∷ [])) compiled calls
      → Passed (cons (declaration (identifier id) right doc) ds) ids compiled calls
  unfolding first_pass marked has
  Passed-late late absent p =
      let unused : has id ids ≡ false = ground arith in
      record {
        names = p.names;
        done = p.done;
        result = rw (unused, late) p.result;
        kept = λ x h. p.kept x (ground (arith, has-append x ids (id ∷ [])));
        ready = (ground (arith, p.kept id, has-append id ids (id ∷ []), eq_iff id id), p.ready);
      }

  Passed-early :
      is_late right ≡ false
      → Passed ds
          (ids ++ (id ∷ []))
          (insert id (declaration (identifier id) right doc) compiled)
          (calls ++ (declaration (identifier id) right doc ∷ []))
      → Passed (cons (declaration (identifier id) right doc) ds) ids compiled calls
  unfolding first_pass marked has and_then compile_into
  Passed-early early p =
      let added =
        λ (x : String). has-keys-insert id x (declaration (identifier id) right doc) compiled in
      let unused : has id ids ≡ false = ground arith in
      let more = append_step calls (declaration (identifier id) right doc) (those false ds) in
      record {
        names = p.names;
        done = p.done;
        result = rw (unused, early) (p.result ∙ ap (λ z. ok (p.names, (p.done, z))) more);
        kept = λ x h. ground (arith, p.kept x, added x, eq_iff id x, has-append x ids (id ∷ []));
        ready = (
          ground (arith, p.kept id, added id, eq_iff id id, has-append id ids (id ∷ [])),
          p.ready,
        );
      }

not_yet :
    (id : String) (ids : List String) (compiled : List (String × Node))
    → marked id ids ≡ false
    → ((x : String) → has x (keys compiled) ≡ true → has x ids ≡ true)
    → has id (keys compiled) ≡ false
unfolding marked
not_yet id ids compiled new sub = ground (arith, sub id)

sub_late :
    (id : String) (ids : List String) (compiled : List (String × Node))
    → ((x : String) → has x (keys compiled) ≡ true → has x ids ≡ true)
    → (x : String) → has x (keys compiled) ≡ true
    → has x (ids ++ (id ∷ [])) ≡ true
sub_late id ids compiled sub x h = ground (arith, has-append x ids (id ∷ []), sub x)

sub_early :
    (id : String) (v : Node) (ids : List String) (compiled : List (String × Node))
    → ((x : String) → has x (keys compiled) ≡ true → has x ids ≡ true)
    → (x : String) → has x (keys (insert id v compiled)) ≡ true
    → has x (ids ++ (id ∷ [])) ≡ true
unfolding has
sub_early id v ids compiled sub x h =
    ground (arith, has-append x ids (id ∷ []), has-keys-insert id x v compiled, sub x)

first_pass-those :
    (ds : Nodes) (ids : List String) (compiled : List (String × Node)) (calls : List Node)
    → Fresh ids ds
    → ((x : String) → has x (keys compiled) ≡ true → has x ids ≡ true)
    → Passed ds ids compiled calls
unfolding first_pass
first_pass-those nil ids compiled calls f sub = record {
  names = ids;
  done = compiled;
  result = rw (append_none calls) refl;
  kept = λ x h. refl;
  ready = tt;
}
first_pass-those (cons (declaration (identifier id) right doc) ds) ids compiled calls (new, f) sub =
    let dec = declaration (identifier id) right doc in
    let known = has-append id ids (id ∷ []) in
    elim (Bool-cases (is_late right)) [
      | inl late ↦
          Passed-late id right doc ds ids compiled calls new late (not_yet id ids compiled new sub)
            (first_pass-those ds (ids ++ (id ∷ [])) compiled calls f (sub_late id ids compiled sub))
      | inr early ↦ Passed-early id right doc ds ids compiled calls new early (
          first_pass-those ds (ids ++ (id ∷ [])) (insert id dec compiled) (calls ++ (dec ∷ [])) f
            (sub_early id dec ids compiled sub))
    ]
first_pass-those (cons _ ds) ids compiled calls f sub = absurd f

-- Each declaration of a block of distinct names is compiled once: first all whose right side is
-- no function, in order, then the functions, in order. No name may be one that every
-- JavaScript object inherits; what is compiled is noted and changes nothing else.
pub declaration_block-those :
    (ds : Nodes)
    → Fresh [] ds
    → (out : List (Option Node)) × (declaration_block noted ignored ds []
        ≡ ok (out, those false ds ++ those true ds))
unfolding declaration_block and_then
declaration_block-those ds f =
    let first = first_pass-those ds [] [] [] f (λ x h. h) in
    let (after, second) = second_pass-those ds [] first.done (those false ds) f first.ready in
    (map (λ id. lookup id after) first.names, rw (first.result, second) refl)
