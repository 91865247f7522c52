-- ===== src/Pxf/Parser/Values.antt =====
-- crates/protowire-pxf/src/parser.rs, lines 598 to 864: entries and values. The recursion of the
-- methods, and their loops, run on fuel.
use protowire_rust.Prelude.{
  ℕ, zero, suc, [], ◌∷◌, Bool, true, false, ◌||◌, Option, none, some, codes,
}
use protowire_rust.Pxf.Token.{Position, Token, TokenKind}
use protowire_rust.Pxf.Ast.{
  Comment, Value, Values, Entry, Entries, Head, nil, cons, end, entry, assignment, map_entry,
  block_entry, type_entry,
}
use protowire_rust.Pxf.Ast
use protowire_rust.Pxf.Parser.Bytes.{decode_base64}
use protowire_rust.Pxf.Parser.Columns.{same_text}
use protowire_rust.Pxf.Parser.State.{
  Parser, Result, ok, err, stuck, ◌>>=◌, ◌>>◌, guard, same, at, kind, enter, leave, advance,
  flush_comments, expected_key, key_with_precision, assignment_key, map_entry_at_top, block_key,
  expected_tail, expected_value, expected_list_end, expected_body_end, type_entry_misplaced,
  expected_type_equals, expected_type_url,
}

-- `parse_value` at a token that is a value by itself.
unfoldable pub scalar : TokenKind → Token → Option Value
unfolding decode_base64 same_text
scalar TokenKind.string t = some (Ast.string (record { pos = t.pos; value = t.value }))
scalar TokenKind.int t = some (Ast.int (record { pos = t.pos; raw = t.value; prec = t.prec }))
scalar TokenKind.float t = some (Ast.float (record { pos = t.pos; raw = t.value; prec = t.prec }))
scalar TokenKind.bool t =
    some (Ast.bool (record { pos = t.pos; value = same_text t.value (codes "true") }))
scalar TokenKind.bytes t = some (Ast.bytes (record { pos = t.pos; value = decode_base64 t.value }))
scalar TokenKind.timestamp t = some (Ast.timestamp (record { pos = t.pos; raw = t.value }))
scalar TokenKind.duration t = some (Ast.duration (record { pos = t.pos; raw = t.value }))
scalar TokenKind.null t = some (Ast.null (record { pos = t.pos }))
scalar TokenKind.ident t = some (Ast.ident (record { pos = t.pos; name = t.value }))
scalar _ t = none

-- `parse_type_entry`
unfoldable pub parse_type_entry : Bool → Parser → Result (Entry × Parser)
unfolding advance same
parse_type_entry first p0 = do
  let leading = p0.pending
  let p = flush_comments p0
  guard first p.current.pos type_entry_misplaced
  q ← advance p
  guard (at TokenKind.equals q) q.current.pos (expected_type_equals (kind q))
  r ← advance q
  guard (at TokenKind.string r) r.current.pos (expected_type_url (kind r))
  s ← advance r
  ok (
    type_entry (record { pos = p.current.pos; url = r.current.value; leading_comments = leading }),
    s,
  )

-- What `parse_entry` reads of an entry before its tail: the kind of its key, and its head.
unfoldable pub entry_head : Parser → Result (TokenKind × Head × Parser)
unfolding advance same
entry_head p0 = do
  let leading = p0.pending
  let p = flush_comments p0
  let pos = p.current.pos
  let key = p.current.value
  guard (at TokenKind.ident p || at TokenKind.string p || at TokenKind.int p || at TokenKind.bool p)
      pos (expected_key (kind p) key)
  guard (elim p.current.prec [ [] ↦ true | c ∷ s ↦ false ]) pos (key_with_precision p.current.prec)
  q ← advance p
  ok (
    kind p,
    record {
      pos = pos;
      key = key;
      quoted = at TokenKind.string p;
      leading_comments = leading;
      trailing_comment = [];
    },
    q,
  )

abbrev pub names_a_field : TokenKind → Bool
names_a_field k = same k TokenKind.ident || same k TokenKind.string

abbrev pub take_comma : Parser → Result Parser
take_comma p = elim (at TokenKind.comma p) [ true ↦ advance p | false ↦ ok p ]

-- The end of a list and of a body: the bracket, and one level up.
unfoldable pub close_list : Parser → Result Parser
unfolding advance same leave
close_list p = do
  guard (at TokenKind.r_bracket p) p.current.pos (expected_list_end (kind p))
  q ← advance p
  ok (leave q)

unfoldable pub close_body : Parser → Result Parser
unfolding advance same leave
close_body p = do
  guard (at TokenKind.r_brace p) p.current.pos (expected_body_end (kind p))
  q ← advance p
  ok (leave q)

unfoldable mutual
  unfolding scalar parse_type_entry entry_head close_list close_body advance same enter

  pub parse_value : (fuel : ℕ) → Parser → Result (Value × Parser)
  parse_value zero p = stuck
  parse_value (suc fuel) p = elim (scalar (kind p) p.current) [
    | some v ↦ do q ← advance p; ok (v, q)
    | none ↦ elim (at TokenKind.l_bracket p) [
      | true ↦ parse_list fuel p
      | false ↦ elim (at TokenKind.l_brace p) [
        | true ↦ parse_block_val fuel p
        | false ↦ err p.current.pos (expected_value (kind p) p.current.value)
      ]
    ]
  ]

  pub parse_list : (fuel : ℕ) → Parser → Result (Value × Parser)
  parse_list zero p = stuck
  parse_list (suc fuel) p = do
    entered ← enter p.current.pos p
    q ← advance entered
    (vs, r) ← list_loop fuel q
    s ← close_list r
    ok (Ast.list p.current.pos vs, s)

  pub list_loop : (fuel : ℕ) → Parser → Result (Values × Parser)
  list_loop zero p = stuck
  list_loop (suc fuel) p = elim (at TokenKind.r_bracket p || at TokenKind.eof p) [
    | true ↦ ok (nil, p)
    | false ↦ do
      (v, q) ← parse_value fuel p
      r ← take_comma q
      (vs, s) ← list_loop fuel r
      ok (cons v vs, s)
  ]

  pub parse_block_val : (fuel : ℕ) → Parser → Result (Value × Parser)
  parse_block_val zero p = stuck
  parse_block_val (suc fuel) p = do
    q ← advance p
    (es, r) ← parse_body fuel p.current.pos q
    ok (Ast.block p.current.pos es, r)

  pub parse_body : (fuel : ℕ) → Position → Parser → Result (Entries × Parser)
  parse_body zero pos p = stuck
  parse_body (suc fuel) pos p = do
    entered ← enter pos p
    (es, q) ← body_loop fuel true entered
    r ← close_body q
    ok (es, r)

  -- `first` is `entries.is_empty()`.
  pub body_loop : (fuel : ℕ) → Bool → Parser → Result (Entries × Parser)
  body_loop zero first p = stuck
  body_loop (suc fuel) first p = elim (at TokenKind.r_brace p || at TokenKind.eof p) [
    | true ↦ ok (end, p)
    | false ↦ do
      (e, q) ← elim (at TokenKind.at_type p) [
        | true ↦ parse_type_entry first p
        | false ↦ parse_entry fuel true p
      ]
      (es, r) ← body_loop fuel false q
      ok (entry e es, r)
  ]

  pub parse_entry : (fuel : ℕ) → Bool → Parser → Result (Entry × Parser)
  parse_entry zero allow p = stuck
  parse_entry (suc fuel) allow p = do
    (k, h, q) ← entry_head p
    elim (at TokenKind.equals q) [
      | true ↦ do
        guard (names_a_field k) h.pos (assignment_key k h.key)
        r ← advance q
        (v, s) ← parse_value fuel r
        ok (assignment h v, s)
      | false ↦ elim (at TokenKind.colon q) [
        | true ↦ do
          guard allow h.pos map_entry_at_top
          r ← advance q
          (v, s) ← parse_value fuel r
          ok (map_entry h v, s)
        | false ↦ elim (at TokenKind.l_brace q) [
          | true ↦ do
            guard (names_a_field k) h.pos (block_key k h.key)
            r ← advance q
            (es, s) ← parse_body fuel q.current.pos r
            ok (block_entry h es, s)
          | false ↦ err q.current.pos (expected_tail h.key (kind q))
        ]
      ]
    ]
