-- ===== src/RulesetState/Moves.antt =====
-- pico-engine-core/src/rulesetState.ts: exportRulesetState and importRulesetState. The ruleset
-- registry, the installation and the writes to the importing pico are calls, in their order.
use Prim.Native.String.{◌++◌}
use pico_engine.Base.{String, ◌&&◌, ◌==◌, if◌then◌else◌, List, [], ◌∷◌, Option, none, some, insert}
use pico_engine.Schema.Queries.{Result, ok, err}
use pico_engine.RulesetState.Crypto.{Payload, Platform, seal_ruleset_state, open_ruleset_state}

-- An entity variable in the database: the parts of its key, and its value.
pub record EntVar (Json : Type 0) : Type 0 where
  pub pico_id : String
  pub rid : String
  pub name : String
  pub value : Json

pub record Installed (Json : Type 0) : Type 0 where
  pub rid : String
  pub url : Option String
  pub config : Option Json

pub data Call (Json : Type 0) : Type 0 where
  flush : String → Call Json
  load : String → Call Json
  install : String → Json → Call Json
  put_ent : String → String → Json → Call Json

pub record Import (Json : Type 0) : Type 0 where
  pub calls : List (Call Json)
  pub result : Result String

module _ {Json : Type 0} where
  -- The keys from `prefix` to `prefix` with undefined behind it are those that start with it.
  unfoldable pub list_ent_vars :
      String → String → List (EntVar Json) → List (String × Json) → List (String × Json)
  list_ent_vars pico_id rid [] ent = ent
  list_ent_vars pico_id rid (var ∷ db) ent =
      let taken = list_ent_vars pico_id rid db (insert var.name var.value ent) in
      let passed = list_ent_vars pico_id rid db ent in
      if var.pico_id == pico_id && var.rid == rid then taken else passed

  unfoldable pub find_installed_ruleset : String → List (Installed Json) → Result (Installed Json)
  find_installed_ruleset rid [] = err ("Ruleset not installed: " ++ rid)
  find_installed_ruleset rid (rs ∷ rulesets) =
      let later = find_installed_ruleset rid rulesets in if rs.rid == rid then ok rs else later

  -- `typeof url !== "string" || url.length === 0`
  unfoldable pub url_of : String → Installed Json → Result String
  url_of rid installed = elim installed.url [
    | none ↦ err ("Ruleset " ++ (rid ++ " has no url in config"))
    | some url ↦ if url == "" then err ("Ruleset " ++ (rid ++ " has no url in config")) else ok url
  ]

  abbrev pub or_else_empty : Json → Option Json → Json
  or_else_empty empty none = empty
  or_else_empty empty (some config) = config

  unfoldable pub put_all : String → List (String × Json) → List (Call Json)
  put_all rid [] = []
  put_all rid ((name, value) ∷ ent) = put_ent rid name value ∷ put_all rid ent

module _ {Bytes Text Json : Type 0} (platform : Platform Bytes Text Json) (empty : Json) where
  unfoldable pub payload_of :
      String → String → Installed Json → List (String × Json) → String → Payload Json
  payload_of rid url installed ent now = record {
    version = 1;
    rid = some rid;
    url = url;
    config = some (or_else_empty empty installed.config);
    ent = ent;
    exported_at = now;
  }

  unfoldable pub export_ruleset_state :
      Bytes
      → Bytes
      → String
      → List (EntVar Json)
      → List (Installed Json)
      → String
      → String
      → String
      → Result Text
  unfolding find_installed_ruleset url_of list_ent_vars seal_ruleset_state payload_of
  export_ruleset_state salt iv now db rulesets pico_id rid secret =
      elim (find_installed_ruleset rid rulesets) [
        | err message ↦ err message
        | ok installed ↦ elim (url_of rid installed) [
          | err message ↦ err message
          | ok url ↦
              seal_ruleset_state platform salt iv
                (payload_of rid url installed (list_ent_vars pico_id rid db []) now) secret
        ]
      ]

  -- The registry's answer for a URL: the id of the ruleset there, or the error of the load.
  module _ (normalize_url : String → String) (load_rid : String → Result String)
      (install_fails : String → Json → Option String) where
    unfoldable pub install_and_put : String → Json → String → List (String × Json) → Import Json
    unfolding put_all
    install_and_put url config rid ent = elim (install_fails url config) [
      | some message ↦ record {
        calls = flush url ∷ load url ∷ install url config ∷ [];
        result = err message;
      }
      | none ↦ record {
        calls = flush url ∷ load url ∷ install url config ∷ put_all rid ent;
        result = ok rid;
      }
    ]

    unfoldable pub import_payload : String → String → Json → List (String × Json) → Import Json
    unfolding install_and_put
    import_payload url rid config ent = elim (load_rid url) [
      | err message ↦ record { calls = flush url ∷ load url ∷ []; result = err message }
      | ok loaded ↦ if loaded == rid then install_and_put url config rid ent else record {
        calls = flush url ∷ load url ∷ [];
        result =
            err ("Ruleset at " ++ (url ++ (" has rid " ++ (loaded ++ (", blob expects " ++ rid)))));
      }
    ]

    abbrev pub import_opened : Payload Json → Option String → Import Json
    import_opened payload none = record { calls = []; result = err "Invalid ruleset state payload" }
    import_opened payload (some rid) =
        import_payload (normalize_url payload.url) rid (or_else_empty empty payload.config)
          payload.ent

    abbrev pub import_read : Result (Payload Json) → Import Json
    import_read (err message) = record { calls = []; result = err message }
    import_read (ok payload) = import_opened payload payload.rid

    unfoldable pub import_ruleset_state : Text → String → Import Json
    unfolding open_ruleset_state import_payload
    import_ruleset_state blob secret = import_read (open_ruleset_state platform blob secret)
