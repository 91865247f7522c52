-- ===== src/Envelope.antt =====
-- crates/protowire-envelope/src/lib.rs: the envelope's data, its builders and its queries.
-- A `String` is the list of its UTF-8 bytes; a `HashMap<String, V>` is the list of its entries, in
-- the order in which it is iterated. `Format` is the binary codec, crates/protowire-envelope/src/codec.rs.
pub mod Map
pub mod Defs
pub mod Format
pub mod Layout
pub mod Parse
pub mod Nested
pub mod RoundTrip
pub mod Total
pub mod Depth
