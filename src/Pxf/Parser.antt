-- ===== src/Pxf/Parser.antt =====
-- crates/protowire-pxf/src/parser.rs: the recursive-descent parser over the lexer. `State` has the
-- parser's state, its moves and its errors, `Bytes` the functions on bytes at the end of the file,
-- `Columns` what parser.rs calls of dataset_paths.rs, `Values` values and entries, `Directives` what
-- stands before them, and `Document` the document. The others are proofs.
pub mod State
pub mod Bytes
pub mod Columns
pub mod Values
pub mod Directives
pub mod Document
pub mod Ensures
pub mod Nesting
pub mod Headers
pub mod Documents
pub mod Base64
pub mod Braces
pub mod Halts
pub mod ValuesHalt
pub mod HeadersHalt
pub mod Termination
