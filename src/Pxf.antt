-- ===== src/Pxf.antt =====
-- crates/protowire-pxf/src: the PXF text format. `Token` is token.rs, `Limits` limits.rs, `BigNum`
-- bignum.rs, `Ast` ast.rs, `Parser` parser.rs, `Dataset` dataset_reader.rs and `Format` format.rs;
-- the others are lexer.rs.
pub mod Token
pub mod Chars
pub mod Literals
pub mod Dedent
pub mod Lexer
pub mod Limits
pub mod BigNum
pub mod Ast
pub mod Parser
pub mod Dataset
pub mod Format
