-- ===== src/RulesetState/Sealing.antt =====
-- pico-engine-core/src/rulesetStateCrypto.ts: an opened text is what was sealed.
use pico_engine.Base.{String, false, ◌==◌, ◌≡◌, refl, ap, ◌∙◌, some}
use pico_engine.Schema.Queries.{ok}
use pico_engine.RulesetState.Crypto.{
  Envelope, Payload, Platform, seal_envelope, decrypted, read_plain, read_envelope, open_envelope,
  seal_ruleset_state, valid, validated, parsed, open_ruleset_state,
}

-- What Node documents of base64, the cipher and JSON: each reads back what it wrote.
pub record Laws {Bytes Text Json : Type 0} (platform : Platform Bytes Text Json) : Type 0 where
  pub base64 : (b : Bytes) → platform.from_base64 (platform.to_base64 b) ≡ b
  pub cipher :
      (key iv : Bytes) (text : Text)
      → platform.decipher key iv (platform.encipher key iv text) ≡ some text
  pub envelope : (e : Envelope Text) → platform.parse_envelope (platform.print_envelope e) ≡ some e
  pub payload :
      (p : Payload Json) → platform.parse_payload (platform.print_payload p) ≡ some (some p)

module _ {Bytes Text Json : Type 0} (platform : Platform Bytes Text Json) (laws : Laws platform)
    (salt iv : Bytes) where
  -- The envelope of a text.
  abbrev envelope_of : Text → String → Envelope Text
  envelope_of text secret =
      let enc = platform.encipher (platform.scrypt_sync secret salt) iv text in
      record {
        v = 1;
        salt = platform.to_base64 salt;
        iv = platform.to_base64 iv;
        tag = platform.to_base64 enc.tag;
        enc = platform.to_base64 enc.enc;
      }

  decrypted-envelope :
      (text : Text) (secret : String)
      → decrypted platform (envelope_of text secret) secret ≡ some text
  unfolding decrypted
  decrypted-envelope text secret =
      let enc = platform.encipher (platform.scrypt_sync secret salt) iv text in
      rw (decrypted, laws.base64 salt, laws.base64 iv, laws.base64 enc.enc, laws.base64 enc.tag)
        (laws.cipher (platform.scrypt_sync secret salt) iv text)

  open-sealed :
      (p : Payload Json) (secret : String)
      → (secret == "") ≡ false
      → open_envelope platform
          (platform.print_envelope (envelope_of (platform.print_payload p) secret))
          secret
        ≡ ok (some p)
  unfolding open_envelope
  open-sealed p secret h =
      let text = platform.print_payload p in
      rw h (
        ap (λ e. read_envelope platform e secret) (laws.envelope (envelope_of text secret))
        ∙ ap (read_plain platform) (decrypted-envelope text secret)
        ∙ ap (parsed platform) (laws.payload p))

  pub open_ruleset_state-sealed :
      (p : Payload Json) (secret : String)
      → (secret == "") ≡ false
      → valid platform (some p) ≡ ok p
      → (blob : Text) × (seal_ruleset_state platform salt iv p secret ≡ ok blob)
        × (open_ruleset_state platform blob secret ≡ ok p)
  unfolding seal_ruleset_state seal_envelope open_ruleset_state
  open_ruleset_state-sealed p secret h v = (
    platform.print_envelope (envelope_of (platform.print_payload p) secret),
    rw h refl,
    ap (validated platform) (open-sealed p secret h) ∙ v,
  )
