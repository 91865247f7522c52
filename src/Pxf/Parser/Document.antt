-- ===== src/Pxf/Parser/Document.antt =====
-- crates/protowire-pxf/src/parser.rs, lines 28 to 81 and 150 to 248: documents, and the entry points.
use protowire_rust.Prelude.{
  ℕ, zero, suc, List, [], ◌∷◌, ◌++◌, Bool, true, false, not, Option, none, some, ltb, if◌then◌else◌,
  length, ◌+◌,
}
use protowire_rust.Pxf.Token.{Position, Token, TokenKind, with_offset}
use protowire_rust.Pxf.Ast.{
  Value, Entries, end, entry, Document, Directive, DatasetDirective, ProtoDirective, DatasetRow,
}
use protowire_rust.Pxf.Limits.{Limits}
use protowire_rust.Pxf.Limits
use protowire_rust.Pxf.Lexer.Cursor.{Lexer, snapshot, restore}
use protowire_rust.Pxf.Parser.Values.{parse_value, parse_entry}
use protowire_rust.Pxf.Parser.Directives.{
  parse_directive, parse_dataset_directive, parse_proto_directive, parse_dataset_row, enough,
}
use protowire_rust.Pxf.Parser.State.{
  Parser, Result, ok, err, stuck, ◌>>=◌, ◌>>◌, guard, same, at, kind, advance, flush_comments, new,
  message_too_large, dataset_with_type, dataset_with_entries, expected_type_name,
}

-- The variables of `parse_document` before its entries.
pub record Header : Type 0 where
  pub type_url : List ℕ
  pub directives : List Directive
  pub datasets : List DatasetDirective
  pub protos : List ProtoDirective
  pub body_offset : ℕ
  pub saw_type : Bool
  pub first_dataset_pos : Option Position

abbrev pub no_header : Header
no_header = record {
  type_url = [];
  directives = [];
  datasets = [];
  protos = [];
  body_offset = 0;
  saw_type = false;
  first_dataset_pos = none;
}

abbrev pub is_some : Option Position → Bool
is_some none = false
is_some (some pos) = true

abbrev pub or_else : Option Position → Position → Option Position
or_else none pos = some pos
or_else (some first) pos = some first

-- One round of the loop at each of the four directives.
unfoldable pub header_type : Header → Parser → Result (Header × Parser)
unfolding advance same
header_type h p = do
  guard (not (is_some h.first_dataset_pos)) p.current.pos dataset_with_type
  q ← advance p
  guard (at TokenKind.ident q) q.current.pos (expected_type_name (kind q))
  r ← advance q
  ok (
    record h {
      saw_type = true;
      body_offset = q.current.pos.offset + length q.current.value;
      type_url = q.current.value;
    },
    r,
  )

unfoldable pub header_directive : Header → Parser → Result (Header × Parser)
unfolding parse_directive
header_directive h p = do
  (d, end_offset, q) ← parse_directive p
  ok (record h { directives = h.directives ++ (d ∷ []); body_offset = end_offset }, q)

unfoldable pub header_dataset : Header → Parser → Result (Header × Parser)
unfolding parse_dataset_directive
header_dataset h p = do
  guard (not h.saw_type) p.current.pos dataset_with_type
  (t, end_offset, q) ← parse_dataset_directive p
  ok (
    record h {
      first_dataset_pos = or_else h.first_dataset_pos t.pos;
      datasets = h.datasets ++ (t ∷ []);
      body_offset = end_offset;
    },
    q,
  )

unfoldable pub header_proto : Header → Parser → Result (Header × Parser)
unfolding parse_proto_directive
header_proto h p = do
  (d, end_offset, q) ← parse_proto_directive p
  ok (record h { protos = h.protos ++ (d ∷ []); body_offset = end_offset }, q)

unfoldable pub header_loop : (fuel : ℕ) → Header → Parser → Result (Header × Parser)
unfolding same header_type header_directive header_dataset header_proto
header_loop zero h p = stuck
header_loop (suc fuel) h p = elim (at TokenKind.at_type p) [
  | true ↦ do (h', q) ← header_type h p; header_loop fuel h' q
  | false ↦ elim (at TokenKind.at_directive p) [
    | true ↦ do (h', q) ← header_directive h p; header_loop fuel h' q
    | false ↦ elim (at TokenKind.at_dataset p) [
      | true ↦ do (h', q) ← header_dataset h p; header_loop fuel h' q
      | false ↦ elim (at TokenKind.at_proto p) [
        | true ↦ do (h', q) ← header_proto h p; header_loop fuel h' q
        | false ↦ ok (h, p)
      ]
    ]
  ]
]

unfoldable pub entries_loop : (fuel : ℕ) → Parser → Result (Entries × Parser)
unfolding same parse_entry
entries_loop zero p = stuck
entries_loop (suc fuel) p = elim (at TokenKind.eof p) [
  | true ↦ ok (end, p)
  | false ↦ do
    (e, q) ← parse_entry (enough p) false p
    (es, r) ← entries_loop fuel q
    ok (entry e es, r)
]

-- The standalone constraint on a document with datasets.
abbrev pub check_standalone : Header → Parser → Result (Unit {0})
check_standalone h p = elim h.first_dataset_pos [
  | none ↦ ok tt
  | some pos ↦ guard (at TokenKind.eof p) pos dataset_with_entries
]

unfoldable pub parse_document : Parser → Result Document
unfolding same header_loop entries_loop
parse_document p0 = do
  let leading = p0.pending
  let p = flush_comments p0
  (h, q) ← header_loop (suc (length p.lex.input)) no_header p
  check_standalone h q
  (es, r) ← entries_loop (suc (length p.lex.input)) q
  ok (record {
    type_url = h.type_url;
    directives = h.directives;
    datasets = h.datasets;
    protos = h.protos;
    body_offset = h.body_offset;
    entries = es;
    leading_comments = leading;
  })

-- `limits.check_message_size(input.len())`, with the position that parser.rs gives it.
unfoldable pub check_message_size : Limits → ℕ → Result (Unit {0})
unfolding with_offset
check_message_size limits len =
    if ltb limits.max_message_size len
    then err (with_offset 1 1 0) (message_too_large len limits.max_message_size)
    else ok tt

unfoldable pub parse_with_limits : List ℕ → Limits → Result Document
unfolding check_message_size new parse_document
parse_with_limits input limits = do
  check_message_size limits (length input)
  p ← new input limits
  parse_document p

unfoldable pub parse : List ℕ → Result Document
unfolding parse_with_limits
parse input = parse_with_limits input Limits.default

-- The value, and the lexer and the token where they stand behind it.
unfoldable pub read_value : Lexer → Token → ℕ → Limits → Result (Value × Lexer × Token)
unfolding parse_value snapshot restore
read_value lex current depth limits = do
  let p : Parser = record {
    lex = lex;
    current = current;
    pending = [];
    depth = depth;
    limits = limits;
  }
  (v, q) ← parse_value (enough p) p
  ok (v, restore (snapshot q.lex) lex, q.current)

unfoldable pub parse_row : List ℕ → ℕ → Limits → Result DatasetRow
unfolding check_message_size new parse_dataset_row
parse_row input expected limits = do
  check_message_size limits (length input)
  p ← new input limits
  (row, end_offset, q) ← parse_dataset_row expected p
  ok row
