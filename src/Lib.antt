-- ===== src/Lib.antt =====
-- Verification of protowire, the Rust library of wire formats: the protobuf wire format and message
-- codec (crates/protowire-pb), the error envelope on top of it (crates/protowire-envelope), and, of
-- the PXF text format (crates/protowire-pxf), the big numbers, the lexer, the AST, the parser, the
-- formatter and the streaming reader of datasets.
--
-- The parts, and how they meet. `Message` implementations of the envelope (codec.rs of
-- protowire-envelope) are called by `marshal_with`, `unmarshal_with`, `write_message` and
-- `read_message` (codec.rs of protowire-pb), which drive the `Writer` and the `Reader` (wire.rs).
-- The trait `Message` is the record of Codec: a default, an encoder and a decoder of one field. The
-- envelope's types fill it, and Codec.Total is about every type whose fields are read forward. The PXF parser drives the lexer token by token, checks the limits of limits.rs and
-- the column paths of a dataset, and builds the AST. Where a directive has a block, it finds the
-- closing brace in the bytes and keeps the text between the braces: behind the parsed block of a
-- named directive, and in place of parsing for `@proto`, where it lexes again from behind the brace.
-- The big numbers are functions on bytes that stand by themselves. The streaming reader of a dataset
-- takes bytes from an `io::Read`, looks in those at hand for the end of the header or of a row, and
-- gives the parser what it has cut off. That source is a parameter: the record Source of
-- Pxf.Dataset.Reader, with what `io::Read` documents in the record Delivers of Pxf.Dataset.Delivers.
-- The formatter prints the AST.
--
-- The files.
--   Prelude: native numbers, lists measured by them, Boolean tests, and lemmas on bits.
--   Wire: crates/protowire-pb/src/wire.rs. Types has limits, errors and wire types, Writer and Reader
--     the two structs with one function for each method, Utf8 and Bytes what they use of the
--     standard library. Varint, Numbers, Fields, Bounds, Answers and RoundTrip are proofs.
--   Codec: crates/protowire-pb/src/codec.rs. Writes, Runs and Total are proofs about its operations.
--   Envelope: crates/protowire-envelope/src. Defs is lib.rs, Format codec.rs, Map what both use of
--     HashMap. Layout describes the bytes of each type by themselves, Parse and Nested read them
--     back, and RoundTrip, Total and Depth have the results.
--   Pxf: crates/protowire-pxf/src. Token is token.rs, Limits limits.rs and Ast ast.rs. Chars,
--     Literals, Dedent and Lexer are lexer.rs, of which Lexer.Place, Middle and Moves are proofs.
--     BigNum is bignum.rs; its child modules are proofs, of which Radix says what number digits
--     and bytes stand for. Parser is parser.rs, with what it calls of dataset_paths.rs, schema.rs
--     and decode.rs: State has the parser's state, moves and errors, Bytes, Columns, Values,
--     Directives and Document the rest; Ensures, Nesting, Headers, Documents, Braces, Halts,
--     ValuesHalt, HeadersHalt and Termination are proofs. Dataset is dataset_reader.rs: Scan has the
--     scans of the bytes at hand and Reader the reader; Rows and Header say what the text as a
--     whole answers, and Stays, Skips, Elements, Inside, Found, FoundHeader, Delivers, Refines,
--     Opening and Sticky are proofs. Format is format.rs, with `ident_safe_entry_name` of keyed.rs;
--     Quoting and Strings are proofs about its strings, Base64, Valid, Literal and Literals about its
--     bytes values, as is Parser.Base64.
--   Tests: runs on concrete inputs.
--
-- Conventions. A text and a byte vector are lists of bytes, below 256 where it matters. A w-bit
-- integer is a natural number with `% 2 ^ w` where the source wraps; an i32, i64, f32 or f64 is its
-- bit pattern. A method with `&mut self` returns the new state. `Result` of Wire has the errors of
-- wire.rs; a `Writer` method that can panic, on a bad field number, returns an Option, `none` for
-- the panic; the lexer's `Outcome` and the parser's `Result` have the panics of the lexer. An error
-- with a message is a constructor with what the message prints. HashMap is an association list in
-- the order of insertion, and iterates in that order; the source's order is unspecified.
--
-- Loops and fuel. `varint` runs ten rounds, as the source does. The loops of `unmarshal_with` and
-- `read_message` get one round more than there are bytes, since each reads a tag; that they do not
-- run out is among the results. A loop of the lexer gets the length of its input, with one more
-- where the loop itself returns, since each round takes a byte; that this is enough is among the
-- results. A carry of the big numbers is a u32 and pushes four bytes at most, and a long division
-- gets three rounds for each byte, which is worth less than three digits. The
-- parser's loops get one round more than there are bytes, its calls of each other four for each byte
-- and four more; that this is enough for the documents and rows of any input is among the results.
-- The scans of the streaming reader get the length of the bytes at hand. `pull` gets the number of
-- times that the source may be interrupted in a row, and the loops that call it a number of rounds:
-- how much `next_row` and `with_limits` need is stated with their results.
--
-- Not modelled: `into_bytes` and other accessors that only hand a field out, formatting of errors,
-- and of PXF the big floats, the encoder, the decoder, but for its base64, the check of columns
-- against a schema, and of the reader of datasets what binds a row to a message (`bind_row`,
-- `scan_one`); the SBE codec; the commands.
-- The descriptors that the encoder, the decoder and the SBE codec rest on come from another library.
pub mod Prelude
pub mod Wire
pub mod Codec
pub mod Envelope
pub mod Tests
pub mod Pxf
