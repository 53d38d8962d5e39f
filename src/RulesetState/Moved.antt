-- ===== src/RulesetState/Moved.antt =====
-- pico-engine-core/src/rulesetState.ts: an import of an export.
use pico_engine.Base.{String, false, ◌==◌, ◌≡◌, refl, ap, ◌∙◌, Option, none, List, [], ◌∷◌, eq_refl}
use pico_engine.Schema.Queries.{Result, ok}
use pico_engine.RulesetState.Crypto.{Platform}
use pico_engine.RulesetState.Moves.{
  EntVar, Installed, Call, flush, load, install, list_ent_vars, find_installed_ruleset, url_of,
  or_else_empty, put_all, payload_of, export_ruleset_state, install_and_put, import_payload,
  import_read, import_ruleset_state,
}
use pico_engine.RulesetState.Sealing.{Laws, open_ruleset_state-sealed}

-- The calls of a successful import.
abbrev pub moving :
    {Json : Type 0} → String → String → Json → List (String × Json) → List (Call Json)
moving url rid config ent = flush url ∷ load url ∷ install url config ∷ put_all rid ent

module _ {Bytes Text Json : Type 0} (platform : Platform Bytes Text Json) (laws : Laws platform)
    (empty : Json) (normalize_url : String → String) (load_rid : String → Result String)
    (install_fails : String → Json → Option String) where
  imported :
      (url rid : String) (config : Json) (ent : List (String × Json))
      → load_rid url ≡ ok rid
      → install_fails url config ≡ none
      → import_payload platform empty normalize_url load_rid install_fails url rid config ent
        ≡ record { calls = moving url rid config ent; result = ok rid }
  unfolding import_payload install_and_put
  imported url rid config ent l i = rw (import_payload, l, eq_refl rid, install_and_put, i) refl

  -- With a secret that is not empty, an installed ruleset that has a URL, and a registry that finds the
  -- same ruleset there and an installation that succeeds: the export gives a text, and its import
  -- loads the ruleset afresh by its normalized URL, installs it with the exported configuration,
  -- writes every exported entity variable in order, and returns the ruleset's id.
  pub import_ruleset_state-exported :
      (salt iv : Bytes) (now : String) (db : List (EntVar Json)) (rulesets : List (Installed Json))
      (pico_id rid secret url : String) (installed : Installed Json)
      → (secret == "") ≡ false
      → find_installed_ruleset rid rulesets ≡ ok installed
      → url_of rid installed ≡ ok url
      → load_rid (normalize_url url) ≡ ok rid
      → install_fails (normalize_url url) (or_else_empty empty installed.config) ≡ none
      → (blob : Text) × (export_ruleset_state platform empty salt iv now db rulesets pico_id rid
            secret
          ≡ ok blob)
        × (import_ruleset_state platform empty normalize_url load_rid install_fails blob secret
            ≡ record {
              calls =
                  moving
                    (normalize_url url)
                    rid
                    (or_else_empty empty installed.config)
                    (list_ent_vars pico_id rid db []);
              result = ok rid;
            })
  unfolding export_ruleset_state import_ruleset_state payload_of
  import_ruleset_state-exported salt iv now db rulesets pico_id rid secret url installed s f u l i =
      let ent = list_ent_vars pico_id rid db [] in
      let (blob, sealed, opened) =
        open_ruleset_state-sealed platform laws salt iv
          (payload_of platform empty rid url installed ent now) secret s refl in
      (
        blob,
        rw (export_ruleset_state, f, u) sealed,
        ap (import_read platform empty normalize_url load_rid install_fails) opened
            ∙ imported (normalize_url url) rid (or_else_empty empty installed.config) ent l i,
      )
