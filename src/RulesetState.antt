-- ===== src/RulesetState.antt =====
-- pico-engine-core/src/rulesetState.ts and rulesetStateCrypto.ts: a ruleset's state as an encrypted
-- text, and its import into another pico.
pub mod Crypto
pub mod Moves
pub mod Sealing
pub mod Moved
