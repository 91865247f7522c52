-- ===== src/Pxf/Dataset.antt =====
-- crates/protowire-pxf/src/dataset_reader.rs: the streaming reader of a dataset. `Scan` has the scans
-- for the end of a row and of the header, `Reader` the reader over a source of bytes, and `Rows` and
-- `Header` the answers of a text as a whole; the others are proofs.
pub mod Scan
pub mod Reader
pub mod Stays
pub mod Skips
pub mod Elements
pub mod Inside
pub mod Found
pub mod FoundHeader
pub mod Delivers
pub mod Sticky
pub mod Rows
pub mod Refines
pub mod Header
pub mod Opening
