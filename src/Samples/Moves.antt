-- ===== src/Samples/Moves.antt =====
-- The theorem on an exported and imported ruleset, at a platform whose texts are trees.
use pico_engine.Base.{ℕ, String, ◌≡◌, refl, List, [], ◌∷◌, Option, none, some, insert}
use pico_engine.Schema.Queries.{Result, ok}
use pico_engine.RulesetState.Crypto.{Envelope, Payload, Platform}
use pico_engine.RulesetState.Moves.{
  EntVar, Installed, put_ent, list_ent_vars, find_installed_ruleset, url_of, put_all,
  export_ruleset_state, import_ruleset_state,
}
use pico_engine.RulesetState.Sealing.{Laws}
use pico_engine.RulesetState.Moved.{moving, import_ruleset_state-exported}

data Tree : Type 0 where
  leaf : String → Tree
  envelope : ℕ → Tree → Tree → Tree → Tree → Tree
  payload : ℕ → Option String → String → Option String → List (String × String) → String → Tree

abbrev parse_envelope : Tree → Option (Envelope Tree)
parse_envelope (envelope v salt iv tag enc) =
    some (record { v = v; salt = salt; iv = iv; tag = tag; enc = enc })
parse_envelope _ = none

abbrev parse_payload : Tree → Option (Option (Payload String))
parse_payload (payload version rid url config ent at) = some (
    some (record {
      version = version;
      rid = rid;
      url = url;
      config = config;
      ent = ent;
      exported_at = at;
    }))
parse_payload _ = none

abbrev trees : Platform Tree Tree String
trees = record {
  scrypt_sync = λ secret salt. leaf secret;
  to_base64 = λ t. t;
  from_base64 = λ t. t;
  encipher = λ key iv t. record { enc = t; tag = key };
  decipher = λ key iv s. some s.enc;
  print_envelope = λ e. envelope e.v e.salt e.iv e.tag e.enc;
  parse_envelope = parse_envelope;
  print_payload = λ p. payload p.version p.rid p.url p.config p.ent p.exported_at;
  parse_payload = parse_payload;
  print_number = λ n. "n";
}

trees_lawful : Laws trees
trees_lawful = record {
  base64 = λ b. refl;
  cipher = λ key iv t. refl;
  envelope = λ e. refl;
  payload = λ p. refl;
}

abbrev variables : List (EntVar String)
variables =
    record { pico_id = "p1"; rid = "hello"; name = "seen"; value = "3" }
    ∷ record { pico_id = "p1"; rid = "other"; name = "seen"; value = "4" }
    ∷ record { pico_id = "p1"; rid = "hello"; name = "who"; value = "Bob" }
    ∷ []

abbrev greeting : Installed String
greeting = record { rid = "hello"; url = some "file:///hello.krl"; config = none }

greeting_found : find_installed_ruleset "hello" (greeting ∷ []) ≡ ok greeting
unfolding find_installed_ruleset
greeting_found = refl

greeting_url : url_of "hello" greeting ≡ ok "file:///hello.krl"
unfolding url_of
greeting_url = refl

abbrev as_it_is : String → String
as_it_is url = url

abbrev one_ruleset : String → Result String
one_ruleset url = ok "hello"

abbrev installs : String → String → Option String
installs url config = none

import_ruleset_state-exported_example :
    (blob : Tree) × (export_ruleset_state trees "{}"
        (leaf "salt")
        (leaf "iv")
        "now"
        variables
        (greeting ∷ [])
        "p1"
        "hello"
        "secret"
      ≡ ok blob)
    × (import_ruleset_state trees "{}" as_it_is one_ruleset installs blob "secret" ≡ record {
      calls = moving "file:///hello.krl" "hello" "{}" (list_ent_vars "p1" "hello" variables []);
      result = ok "hello";
    })
import_ruleset_state-exported_example =
    import_ruleset_state-exported trees trees_lawful "{}" as_it_is one_ruleset installs
      (leaf "salt") (leaf "iv") "now" variables (greeting ∷ []) "p1" "hello" "secret"
      "file:///hello.krl" greeting refl greeting_found greeting_url refl refl

variables_listed :
    put_all "hello" (list_ent_vars "p1" "hello" variables [])
    ≡ put_ent "hello" "seen" "3" ∷ put_ent "hello" "who" "Bob" ∷ []
unfolding put_all list_ent_vars insert
variables_listed = refl
