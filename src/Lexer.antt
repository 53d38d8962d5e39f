-- ===== src/Lexer.antt =====
-- krl-parser/src/tokenizer.ts: the tokens of a KRL source text.
pub mod Scan
pub mod State
pub mod Step
mod Buffers
pub mod Texts
mod Moves
mod Branches
mod Rounds
mod Loop
pub mod Source
pub mod Locations
pub mod Beestings
