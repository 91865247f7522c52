-- ===== src/Wire.antt =====
-- crates/protowire-pb/src/wire.rs: the protobuf wire primitives. `Types` has the error, result,
-- limit and wire-type declarations, `Utf8` and `Bytes` what the file uses of Rust's standard
-- library, `Writer` and `Reader` the two cursors; the other children are about these.
pub mod Types
pub mod Utf8
pub mod Bytes
pub mod Writer
pub mod Reader
pub mod Varint
pub mod Numbers
pub mod Fields
pub mod Bounds
pub mod Answers
pub mod RoundTrip
