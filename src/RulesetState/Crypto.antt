-- ===== src/RulesetState/Crypto.antt =====
-- pico-engine-core/src/rulesetStateCrypto.ts. Node's crypto and Buffer, and JSON of the two shapes
-- it is used for, are an argument; the random bytes are arguments of the functions that ask for them.
use Prim.Native.String.{◌++◌}
use pico_engine.Base.{
  ℕ, zero, suc, String, Bool, true, false, not, ◌||◌, ◌==◌, if◌then◌else◌, List, Option, none, some,
  is_some,
}
use pico_engine.Schema.Queries.{Result, ok, err}

-- `enc` is its `data`. A text that is printed JSON or base64 is a `Text`.
pub record Envelope (Text : Type 0) : Type 0 where
  pub v : ℕ
  pub salt : Text
  pub iv : Text
  pub tag : Text
  pub enc : Text

-- A payload as JSON has it: members may be missing, and `rid` is none where it is no text.
pub record Payload (Json : Type 0) : Type 0 where
  pub version : ℕ
  pub rid : Option String
  pub url : String
  pub config : Option Json
  pub ent : List (String × Json)
  pub exported_at : String

pub record Sealed (Bytes : Type 0) : Type 0 where
  pub enc : Bytes
  pub tag : Bytes

pub record Platform (Bytes Text Json : Type 0) : Type 0 where
  pub scrypt_sync : String → Bytes → Bytes
  pub to_base64 : Bytes → Text
  pub from_base64 : Text → Bytes
  pub encipher : Bytes → Bytes → Text → Sealed Bytes
  pub decipher : Bytes → Bytes → Sealed Bytes → Option Text
  pub print_envelope : Envelope Text → Text
  pub parse_envelope : Text → Option (Envelope Text)
  pub print_payload : Payload Json → Text
  pub parse_payload : Text → Option (Option (Payload Json))
  pub print_number : ℕ → String

abbrev is_one : ℕ → Bool
is_one (suc zero) = true
is_one _ = false

module _ {Bytes Text Json : Type 0} (platform : Platform Bytes Text Json) where
  unfoldable pub seal_envelope : Bytes → Bytes → Text → String → Result Text
  seal_envelope salt iv json secret =
      let enc = platform.encipher (platform.scrypt_sync secret salt) iv json in
      if secret == ""
      then err "secret must be a non-empty string"
      else ok (
          platform.print_envelope (record {
            v = 1;
            salt = platform.to_base64 salt;
            iv = platform.to_base64 iv;
            tag = platform.to_base64 enc.tag;
            enc = platform.to_base64 enc.enc;
          }))

  unfoldable pub decrypted : Envelope Text → String → Option Text
  decrypted e secret =
      platform.decipher (platform.scrypt_sync secret (platform.from_base64 e.salt))
        (platform.from_base64 e.iv)
        (record { enc = platform.from_base64 e.enc; tag = platform.from_base64 e.tag })

  -- What `JSON.parse` of the plain text gives.
  abbrev pub parsed : Option (Option (Payload Json)) → Result (Option (Payload Json))
  parsed none = err "Portable state decryption failed (wrong secret or tampered blob)"
  parsed (some payload) = ok payload

  abbrev pub read_plain : Option Text → Result (Option (Payload Json))
  read_plain none = err "Portable state decryption failed (wrong secret or tampered blob)"
  read_plain (some plain) = parsed (platform.parse_payload plain)

  abbrev pub read_envelope : Option (Envelope Text) → String → Result (Option (Payload Json))
  read_envelope none secret = err "Invalid portable state blob"
  read_envelope (some e) secret =
      if is_one e.v
      then read_plain (decrypted e secret)
      else err ("Unsupported portable state version: " ++ platform.print_number e.v)

  unfoldable pub open_envelope : Text → String → Result (Option (Payload Json))
  unfolding decrypted
  open_envelope blob secret =
      if secret == ""
      then err "secret must be a non-empty string"
      else read_envelope (platform.parse_envelope blob) secret

  unfoldable pub seal_ruleset_state : Bytes → Bytes → Payload Json → String → Result Text
  unfolding seal_envelope
  seal_ruleset_state salt iv payload secret =
      seal_envelope salt iv (platform.print_payload payload) secret

  abbrev pub valid : Option (Payload Json) → Result (Payload Json)
  valid none = err "Invalid ruleset state payload"
  valid (some p) =
      if not (is_one p.version) || not (is_some p.rid)
      then err "Invalid ruleset state payload"
      else ok p

  abbrev pub validated : Result (Option (Payload Json)) → Result (Payload Json)
  validated (err message) = err message
  validated (ok payload) = valid payload

  unfoldable pub open_ruleset_state : Text → String → Result (Payload Json)
  unfolding open_envelope
  open_ruleset_state blob secret = validated (open_envelope blob secret)
