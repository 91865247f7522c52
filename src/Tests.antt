-- ===== src/Tests.antt =====
-- Runs of the model on concrete inputs, and the theorems at inputs that meet their hypotheses.
pub mod Wire
pub mod Envelope
pub mod Lexer
pub mod Codec
mod BigNum
mod Parser
mod Dataset
mod Format
