-- ===== src/Tests/Parser.antt =====
-- The parser on small documents, and its theorems at concrete inputs.
use protowire_rust.Prelude.{
  ℕ, List, [], ◌∷◌, ◌++◌, codes, ◌≡◌, ◌≢◌, refl, some, length, ◌≤◌, ◌<◌, ◌+◌, arith,
}
use protowire_rust.Pxf.Ast.{Value, Values, Entry, Entries, Document, nil, cons, end, entry}
use protowire_rust.Pxf.Parser.State.{Result, ok, err, panics, stuck, guard}
use protowire_rust.Pxf.Parser.Bytes.{find_matching_brace, decode_base64, byte}
use protowire_rust.Pxf.Parser.Columns.{column_path_error}
use protowire_rust.Pxf.Parser.State
use protowire_rust.Pxf.Parser.Document.{parse, parse_with_limits, parse_row, read_value}
use protowire_rust.Pxf.Parser.Termination.{parse_with_limits-ne-stuck}
use protowire_rust.Pxf.Parser.Documents.{
  IsDocument, parse_with_limits-IsDocument, read_value_nested,
}
use protowire_rust.Pxf.Parser.Nesting.{height, IsWell}
use protowire_rust.Pxf.Parser.Braces.{find_matching_brace_bounds}
use protowire_rust.Pxf.Lexer.Cursor.{Lexer}
use protowire_rust.Pxf.Lexer.Cursor
use protowire_rust.Pxf.Token.{Token, TokenKind, with_offset}
use protowire_rust.Pxf.Token
use protowire_rust.Pxf.Limits
use protowire_rust.Wire.Utf8.{utf8_loop}
use protowire_rust.Pxf.Lexer.Next.{next_token}

-- The shape of a value: its brackets, and `.` for each scalar.
abbrev mutual
  value_shape : Value → List ℕ
  value_shape (Value.list pos vs) = codes "[" ++ (values_shape vs ++ codes "]")
  value_shape (Value.block pos es) = codes "{" ++ (entries_shape es ++ codes "}")
  value_shape _ = codes "."

  values_shape : Values → List ℕ
  values_shape nil = []
  values_shape (cons v vs) = value_shape v ++ values_shape vs

  entry_shape : Entry → List ℕ
  entry_shape (Entry.assignment h v) = h.key ++ (codes "=" ++ value_shape v)
  entry_shape (Entry.map_entry h v) = h.key ++ (codes ":" ++ value_shape v)
  entry_shape (Entry.block_entry h es) = h.key ++ (codes "{" ++ (entries_shape es ++ codes "}"))
  entry_shape (Entry.type_entry t) = codes "@" ++ t.url

  entries_shape : Entries → List ℕ
  entries_shape end = []
  entries_shape (entry e es) = entry_shape e ++ entries_shape es

abbrev shape : Result Document → List ℕ
shape (ok d) = entries_shape d.entries
shape (err pos reason) = codes "error"
shape panics = codes "panic"
shape stuck = codes "stuck"

nested_document : shape (parse (codes "a = [1, {b = 2}] c { d: x }")) ≡ codes "a=[.{b=.}]c{d:.}"
unfolding parse utf8_loop next_token guard
nested_document = refl

map_entry_at_the_top : shape (parse (codes "a: 1")) ≡ codes "error"
unfolding parse utf8_loop next_token guard
map_entry_at_the_top = refl

brace_in_a_string : find_matching_brace (codes "{ \"}\" {} # }" ++ (b'\n' ∷ codes "}")) 0 ≡ some 13
unfolding find_matching_brace
brace_in_a_string = refl

lenient_base64 : decode_base64 (codes "aGk=") ≡ codes "hi"
unfolding decode_base64
lenient_base64 = refl

overlapping_columns :
    column_path_error (codes "a.b" ∷ codes "c" ∷ codes "a" ∷ [])
    ≡ some (2, State.column_overlap (codes "a") (codes "a.b"))
unfolding column_path_error
overlapping_columns = refl

dataset_document : shape (parse (codes "@dataset T (a, b.c) (1, 2) (, x)")) ≡ []
unfolding parse utf8_loop next_token guard
dataset_document = refl

dataset_beside_an_entry : shape (parse (codes "@dataset T (a) (1) b = 2")) ≡ codes "error"
unfolding parse utf8_loop next_token guard
dataset_beside_an_entry = refl

directive_document :
    shape (parse (codes "@header x.Y { a = 1 } @proto { int32 a = 1; } b = 2")) ≡ codes "b=."
unfolding parse utf8_loop next_token guard
directive_document = refl

abbrev no_document : Document
no_document = record {
  type_url = [];
  directives = [];
  datasets = [];
  protos = [];
  body_offset = 0;
  entries = end;
  leading_comments = [];
}

abbrev document_of : Result Document → Document
document_of (ok d) = d
document_of (err pos reason) = no_document
document_of panics = no_document
document_of stuck = no_document

abbrev nested_text : List ℕ
nested_text = codes "a = [1, {b = 2}] c { d: x }"

abbrev nested_result : Document
nested_result = document_of (parse_with_limits nested_text Limits.default)

parse_with_limits-IsDocument_example :
    IsDocument 100 nested_result × (length nested_text ≤ Limits.max_message_size_default)
unfolding parse_with_limits utf8_loop next_token guard
parse_with_limits-IsDocument_example =
    parse_with_limits-IsDocument nested_text Limits.default nested_result refl

-- The values of a dataset's cells are held to the limit on nesting as well.
abbrev cells_text : List ℕ
cells_text = codes "@dataset T (a, b) ([{c = 1}],)"

cells_within_the_limit :
    shape (parse_with_limits cells_text (record Limits.default { max_nesting_depth = 2 })) ≡ []
unfolding parse_with_limits utf8_loop next_token guard
cells_within_the_limit = refl

cell_too_deep :
    shape (parse_with_limits cells_text (record Limits.default { max_nesting_depth = 1 }))
    ≡ codes "error"
unfolding parse_with_limits utf8_loop next_token guard
cell_too_deep = refl

abbrev list_lexer : Lexer
list_lexer = record (Cursor.new (codes "[1 [2]]")) { pos = 1; col = 2 }

abbrev list_token : Token
unfolding with_offset
list_token = Token.new TokenKind.l_bracket (codes "[") (with_offset 1 1 0)

abbrev value_of : Result (Value × Lexer × Token) → Value × Lexer × Token
value_of (ok r) = r
value_of (err pos reason) = (Value.list (with_offset 1 1 0) nil, list_lexer, list_token)
value_of panics = (Value.list (with_offset 1 1 0) nil, list_lexer, list_token)
value_of stuck = (Value.list (with_offset 1 1 0) nil, list_lexer, list_token)

abbrev list_result : Value × Lexer × Token
list_result = value_of (read_value list_lexer list_token 98 Limits.default)

read_value_nested_example : (height list_result.0 + 98 ≤ 100) × IsWell list_result.0
unfolding read_value utf8_loop next_token guard with_offset Cursor.new
read_value_nested_example =
    read_value_nested list_lexer list_token 98 Limits.default list_result.0 list_result.1
      list_result.2 (omega arith) refl

find_matching_brace_bounds_example :
    (0 < 13)
    × (13 < length (codes "{ \"}\" {} # }" ++ (b'\n' ∷ codes "}")))
    × (byte (codes "{ \"}\" {} # }" ++ (b'\n' ∷ codes "}")) 13 ≡ b'}')
unfolding find_matching_brace
find_matching_brace_bounds_example =
    find_matching_brace_bounds (codes "{ \"}\" {} # }" ++ (b'\n' ∷ codes "}")) 0 13 refl

parse_with_limits-ne-stuck_example :
    (parse_with_limits nested_text Limits.default ≢ stuck)
    × (parse_row nested_text 2 Limits.default ≢ stuck)
parse_with_limits-ne-stuck_example = parse_with_limits-ne-stuck nested_text 2 Limits.default
