-- ===== src/Parser.antt =====
-- krl-parser/src/tdop.ts and the expressions of krl-parser/src/krl.ts.
pub mod Rules
pub mod State
pub mod Chomps
pub mod Values
pub mod Expressions
pub mod Forms
pub mod Steps
pub mod Written
pub mod Places
pub mod Openings
pub mod Fuel
pub mod Settled
pub mod Termination
pub mod RoundTrip
pub mod Whole
