-- ===== src/PicoSchema/Installations.antt =====
-- pico-engine-core/src/picoSchema.ts: the schemas of the rulesets that a pico has installed.
use pico_engine.Base.{
  String, ◌≡◌, ◌↔◌, refl, ap, sym, ◌∙◌, inl, inr, List, [], ◌∷◌, Option, none, some, Option-cases,
  lookup, keys, has-keys, has→In, In, is_some,
}
use pico_engine.PicoSchema.Types.{EntryRef, SchemaOperation, RulesetSchema, PicoQuery}
use pico_engine.PicoSchema.Merge.{event_of}
use pico_engine.PicoSchema.Channel.{
  Installed, GetCached, ruleset_schema_for_installed, schemas_for, all_ruleset_schemas_for_pico,
}

pub none-some : {A : Type 0} {x : A} → ◌≡◌ {A = Option A} none (some x) → ⊥
none-some h = cc

pub some-injective : {A : Type 0} (x y : A) → some x ≡ some y → x ≡ y
some-injective x y h = cc

-- The ruleset is installed from a url at which the registry has it cached, with this schema.
abbrev pub HasSchema : Installed → GetCached → String → RulesetSchema → Type 0
HasSchema installed get_cached rid schema =
    (url : String) × (lookup rid installed ≡ some (some url))
    × (get_cached url ≡ some (some schema))

installed-HasSchema :
    (installed : Installed) (get_cached : GetCached) (rid : String) (schema : RulesetSchema)
    → (ruleset_schema_for_installed installed get_cached rid ≡ some schema)
      ↔ HasSchema installed get_cached rid schema
unfolding ruleset_schema_for_installed
installed-HasSchema installed get_cached rid schema = (
  λ h. elim (Option-cases (lookup rid installed)) [
    | inl e ↦ absurd (none-some (rw (ruleset_schema_for_installed, e) at h))
    | inr (config, e) ↦ elim (Option-cases config) [
      | inl f ↦ absurd (none-some (rw (ruleset_schema_for_installed, e, f) at h))
      | inr (url, f) ↦ elim (Option-cases (get_cached url)) [
        | inl g ↦ absurd (none-some (rw (ruleset_schema_for_installed, e, f, g) at h))
        | inr (found, g) ↦
            (url, e ∙ ap some f, g ∙ ap some ((rw (ruleset_schema_for_installed, e, f, g) at h)))
      ]
    ]
  ],
  λ (url, e, f). rw (ruleset_schema_for_installed, e, f) refl,
)

In-schemas_for :
    (installed : Installed) (get_cached : GetCached) (rid : String) (schema : RulesetSchema)
    (rids : List String)
    → In (rid, schema) (schemas_for installed get_cached rids)
      ↔ (In rid rids × (ruleset_schema_for_installed installed get_cached rid ≡ some schema))
unfolding schemas_for
In-schemas_for installed get_cached rid schema [] = (λ i. absurd i, λ (i, e). i)
In-schemas_for installed get_cached rid schema (r ∷ rs) =
    let (there, back) = In-schemas_for installed get_cached rid schema rs in
    elim (Option-cases (ruleset_schema_for_installed installed get_cached r)) [
      | inl e ↦
          rw (schemas_for, e)
            (
              λ i. (inr (there i).0, (there i).1),
              λ (i, h). elim i [
                | inl f ↦ absurd (
                    none-some
                      (sym e ∙ ap (ruleset_schema_for_installed installed get_cached) (sym f) ∙ h))
                | inr j ↦ back (j, h)
              ],
            )
      | inr (s, e) ↦
          rw (schemas_for, e)
            (
              λ i. elim i [
                | inl f ↦ (
                  inl (ap (λ x. x.0) f),
                  ap (ruleset_schema_for_installed installed get_cached) (ap (λ x. x.0) f)
                      ∙ e
                      ∙ ap some (sym (ap (λ x. x.1) f)),
                )
                | inr j ↦ (inr (there j).0, (there j).1)
              ],
              λ (i, h). elim i [
                | inl f ↦
                    let same : schema ≡ s =
                      some-injective schema s
                        (sym h ∙ ap (ruleset_schema_for_installed installed get_cached) f ∙ e) in
                    inl (cc)
                | inr j ↦ inr (back (j, h))
              ],
            )
    ]

pub In-all_schemas :
    (installed : Installed) (get_cached : GetCached) (rid : String) (schema : RulesetSchema)
    → In (rid, schema) (all_ruleset_schemas_for_pico installed get_cached)
      ↔ HasSchema installed get_cached rid schema
unfolding all_ruleset_schemas_for_pico
In-all_schemas installed get_cached rid schema =
    let (there, back) = In-schemas_for installed get_cached rid schema (keys installed) in
    let (a, b) = installed-HasSchema installed get_cached rid schema in
    (
      λ i. a (there i).1,
      λ (url, e, f).
          back (has→In rid (keys installed) (has-keys rid installed ∙ ap is_some e), b (url, e, f)),
    )

-- The installed ruleset `rid` has, in its schema, a query of that name and content.
abbrev pub HasQuery : Installed → GetCached → PicoQuery → Type 0
HasQuery installed get_cached q =
    (schema : RulesetSchema) × HasSchema installed get_cached q.rid schema
    × In q.query schema.queries

-- An operation of an installed ruleset has an entry for the event.
abbrev pub HasEntry : Installed → GetCached → String → String → List String → Type 0
HasEntry installed get_cached domain name constraints =
    (rid : String) × (schema : RulesetSchema) × (op : SchemaOperation) × (ent : EntryRef)
    × HasSchema installed get_cached rid schema
    × In op schema.operations
    × In ent op.entry
    × (event_of ent ≡ some (domain, name))
    × (ent.constraints ≡ constraints)
