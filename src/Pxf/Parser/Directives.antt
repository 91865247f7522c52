-- ===== src/Pxf/Parser/Directives.antt =====
-- crates/protowire-pxf/src/parser.rs, lines 266 to 596: what stands before the entries of a document.
use protowire_rust.Prelude.{
  ℕ, zero, suc, ◌+◌, ◌-◌, List, [], ◌∷◌, ◌++◌, Bool, true, false, not, ◌||◌, Option, none, some,
  ◌==◌, length, take, drop, codes,
}
use protowire_rust.Pxf.Token.{Position, TokenKind}
use protowire_rust.Pxf.Ast.{
  Value, Directive, DatasetRow, DatasetDirective, ProtoShape, ProtoDirective, anonymous, named,
  source, descriptor,
}
use protowire_rust.Pxf.Lexer.Cursor.{reposition_to}
use protowire_rust.Pxf.Parser.Bytes.{find_matching_brace, strict_decode_base64}
use protowire_rust.Pxf.Parser.Columns.{same_text, column_path_error}
use protowire_rust.Pxf.Parser.Values.{parse_value, parse_block_val}
use protowire_rust.Pxf.Parser.State.{
  Parser, Result, ok, err, stuck, ◌>>=◌, ◌>>◌, guard, same, at, kind, advance, flush_comments,
  peek_kind, reserved_directive, unmatched_brace, expected_columns, expected_first_column,
  expected_column, expected_column_end, expected_cell_end, cell_count, expected_proto_brace,
  invalid_base64, expected_proto_body,
}

-- schema.rs, lines 349 to 354
unfoldable pub is_future_reserved_directive : List ℕ → Bool
unfolding same_text
is_future_reserved_directive name =
    same_text name (codes "table")
    || same_text name (codes "datasource")
    || same_text name (codes "view")
    || same_text name (codes "procedure")
    || same_text name (codes "function")
    || same_text name (codes "permissions")

-- The fuel of a recursion into values: four rounds for each byte, and four more.
abbrev pub enough : Parser → ℕ
enough p = let n = length p.lex.input in n + n + n + n + 4

-- `&input[from..to]`
abbrev pub slice : List ℕ → ℕ → ℕ → List ℕ
slice input from to = take (to - from) (drop from input)

-- The prefix identifiers, the offset behind the last of them, and the parser behind it.
unfoldable pub prefix_loop : (fuel : ℕ) → ℕ → Parser → Result (List (List ℕ) × ℕ × Parser)
unfolding same peek_kind advance
prefix_loop zero end_offset p = stuck
prefix_loop (suc fuel) end_offset p = elim (at TokenKind.ident p) [
  | false ↦ ok ([], end_offset, p)
  | true ↦ do
    next ← peek_kind p
    elim (same next TokenKind.equals || same next TokenKind.colon) [
      | true ↦ ok ([], end_offset, p)
      | false ↦ do
        q ← advance p
        (rest, last, r) ← prefix_loop fuel (p.current.pos.offset + length p.current.value) q
        ok (p.current.value ∷ rest, last, r)
    ]
]

abbrev pub only : List (List ℕ) → List ℕ
only (t ∷ []) = t
only [] = []
only (t ∷ u ∷ ts) = []

unfoldable pub parse_directive : Parser → Result (Directive × ℕ × Parser)
unfolding same is_future_reserved_directive advance prefix_loop parse_block_val find_matching_brace
parse_directive p0 = do
  let leading = p0.pending
  let p = flush_comments p0
  let at_pos = p.current.pos
  let name = p.current.value
  guard (not (is_future_reserved_directive name)) at_pos (reserved_directive name)
  q ← advance p
  (prefixes, end_offset, r) ←
      prefix_loop (suc (length p.lex.input)) (at_pos.offset + 1 + length name) q
  elim (at TokenKind.l_brace r) [
    | false ↦ ok (
      record {
        pos = at_pos;
        name = name;
        prefixes = prefixes;
        type_name = only prefixes;
        body = [];
        has_body = false;
        leading_comments = leading;
      },
      end_offset,
      r,
    )
    | true ↦ do
      let open_offset = r.current.pos.offset
      (checked, s) ← parse_block_val (enough r) r
      elim (find_matching_brace s.lex.input open_offset) [
        | none ↦ err at_pos (unmatched_brace name)
        | some close ↦ ok (
          record {
            pos = at_pos;
            name = name;
            prefixes = prefixes;
            type_name = only prefixes;
            body = slice s.lex.input (open_offset + 1) close;
            has_body = true;
            leading_comments = leading;
          },
          close + 1,
          s,
        )
      ]
  ]

-- A cell, `none` where it is empty.
unfoldable pub parse_row_cell : Parser → Result (Option Value × Parser)
unfolding same parse_value
parse_row_cell p = elim (at TokenKind.comma p || at TokenKind.r_paren p) [
  | true ↦ ok (none, p)
  | false ↦ do (v, q) ← parse_value (enough p) p; ok (some v, q)
]

unfoldable pub cells_loop : (fuel : ℕ) → Parser → Result (List (Option Value) × Parser)
unfolding same advance parse_row_cell
cells_loop zero p = stuck
cells_loop (suc fuel) p = elim (at TokenKind.comma p) [
  | false ↦ ok ([], p)
  | true ↦ do q ← advance p; (c, r) ← parse_row_cell q; (cs, s) ← cells_loop fuel r; ok (c ∷ cs, s)
]

unfoldable pub parse_dataset_row : ℕ → Parser → Result (DatasetRow × ℕ × Parser)
unfolding advance parse_row_cell cells_loop same
parse_dataset_row expected p = do
  let pos = p.current.pos
  q ← advance p
  (first, r) ← parse_row_cell q
  (others, s) ← cells_loop (suc (length p.lex.input)) r
  let cells = first ∷ others
  guard (at TokenKind.r_paren s) s.current.pos (expected_cell_end (kind s))
  t ← advance s
  guard (length cells == expected) pos (cell_count (length cells) expected)
  ok (record { pos = pos; cells = cells }, s.current.pos.offset + 1, t)

-- The column names and their positions, and the parser at the `)`.
unfoldable pub names_loop : (fuel : ℕ) → Parser → Result (List (List ℕ) × List Position × Parser)
unfolding same advance
names_loop zero p = stuck
names_loop (suc fuel) p = do
  guard (at TokenKind.ident p) p.current.pos (expected_column (kind p))
  q ← advance p
  elim (at TokenKind.comma q) [
    | true ↦ do
      r ← advance q
      (cs, ps, s) ← names_loop fuel r
      ok (p.current.value ∷ cs, p.current.pos ∷ ps, s)
    | false ↦ do
      guard (at TokenKind.r_paren q) q.current.pos (expected_column_end (kind q))
      ok (p.current.value ∷ [], p.current.pos ∷ [], q)
  ]

-- The rows and the offset behind the last of them.
unfoldable pub rows_loop : (fuel : ℕ) → ℕ → ℕ → Parser → Result (List DatasetRow × ℕ × Parser)
unfolding same parse_dataset_row
rows_loop zero expected end_offset p = stuck
rows_loop (suc fuel) expected end_offset p = elim (at TokenKind.l_paren p) [
  | false ↦ ok ([], end_offset, p)
  | true ↦ do
    (row, row_end, q) ← parse_dataset_row expected p
    (rows, last, r) ← rows_loop fuel expected row_end q
    ok (row ∷ rows, last, r)
]

abbrev pub position_at : List Position → ℕ → Position → Position
position_at [] i default = default
position_at (q ∷ qs) zero default = q
position_at (q ∷ qs) (suc i) default = position_at qs i default

unfoldable pub dataset_type : Parser → Result (List ℕ × Parser)
unfolding same advance
dataset_type p = elim (at TokenKind.ident p) [
  | true ↦ do q ← advance p; ok (p.current.value, q)
  | false ↦ ok ([], p)
]

-- The checks of the header, from its `(` to its `)`.
unfoldable pub column_list : Parser → Result (List (List ℕ) × Parser)
unfolding same advance names_loop column_path_error
column_list p = do
  guard (at TokenKind.l_paren p) p.current.pos (expected_columns (kind p))
  q ← advance p
  guard (at TokenKind.ident q) q.current.pos (expected_first_column (kind q))
  (columns, column_pos, r) ← names_loop (suc (length p.lex.input)) q
  elim (column_path_error columns) [
    | some (i, reason) ↦ err (position_at column_pos i r.current.pos) reason
    | none ↦ ok (columns, r)
  ]

unfoldable pub parse_dataset_directive : Parser → Result (DatasetDirective × ℕ × Parser)
unfolding advance dataset_type column_list rows_loop
parse_dataset_directive p0 = do
  let leading = p0.pending
  let p = flush_comments p0
  q ← advance p
  (type_name, r) ← dataset_type q
  (columns, s) ← column_list r
  t ← advance s
  (rows, end_offset, u) ←
      rows_loop (suc (length p.lex.input)) (length columns) (s.current.pos.offset + 1) t
  ok (
    record {
      pos = p.current.pos;
      type_name = type_name;
      columns = columns;
      rows = rows;
      leading_comments = leading;
    },
    end_offset,
    u,
  )

unfoldable pub capture_brace_body : Position → List ℕ → Parser → Result (List ℕ × ℕ × Parser)
unfolding find_matching_brace reposition_to advance
capture_brace_body at_pos label p =
    let open_offset = p.current.pos.offset in
    elim (find_matching_brace p.lex.input open_offset) [
      | none ↦ err at_pos (unmatched_brace label)
      | some close ↦ do
        q ← advance (record p { lex = reposition_to (close + 1) p.lex })
        ok (slice p.lex.input (open_offset + 1) close, close + 1, q)
    ]

-- The four shapes of `@proto`, at the token behind it: shape, type name, body and end offset.
unfoldable pub proto_body : Position → Parser → Result (ProtoShape × List ℕ × List ℕ × ℕ × Parser)
unfolding same advance capture_brace_body strict_decode_base64
proto_body at_pos p = elim (at TokenKind.l_brace p) [
  | true ↦ do
    (body, end_offset, q) ← capture_brace_body at_pos (codes "@proto (anonymous form)") p
    ok (anonymous, [], body, end_offset, q)
  | false ↦ elim (at TokenKind.ident p) [
    | true ↦ do
      let type_name = p.current.value
      q ← advance p
      guard (at TokenKind.l_brace q) q.current.pos (expected_proto_brace type_name (kind q))
      (body, end_offset, r) ← capture_brace_body at_pos (codes "@proto " ++ type_name) q
      ok (named, type_name, body, end_offset, r)
    | false ↦ elim (at TokenKind.string p) [
      | true ↦ do
        let body = p.current.value
        q ← advance p
        ok (source, [], body, p.current.pos.offset + length body, q)
      | false ↦ elim (at TokenKind.bytes p) [
        | true ↦
            let raw = p.current.value in
            elim (strict_decode_base64 raw) [
              | none ↦ err p.current.pos invalid_base64
              | some decoded ↦ do
                q ← advance p
                ok (descriptor, [], decoded, p.current.pos.offset + length raw + 3, q)
            ]
        | false ↦ err p.current.pos (expected_proto_body (kind p))
      ]
    ]
  ]
]

unfoldable pub parse_proto_directive : Parser → Result (ProtoDirective × ℕ × Parser)
unfolding advance proto_body
parse_proto_directive p0 = do
  let leading = p0.pending
  let p = flush_comments p0
  q ← advance p
  (shape, type_name, body, end_offset, r) ← proto_body p.current.pos q
  ok (
    record {
      pos = p.current.pos;
      shape = shape;
      type_name = type_name;
      body = body;
      leading_comments = leading;
    },
    end_offset,
    r,
  )
