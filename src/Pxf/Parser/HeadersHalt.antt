-- ===== src/Pxf/Parser/HeadersHalt.antt =====
-- crates/protowire-pxf/src/parser.rs, lines 266 to 596: termination of what stands before the
-- entries.
use protowire_rust.Prelude.{
  ℕ, zero, suc, ◌+◌, ◌-◌, ◌*◌, ◌≤◌, List, true, not, ◌||◌, ◌≡◌, ◌∙◌, refl, ap, arith, inl, inr,
  Bool-cases, length, ltb,
}
use protowire_rust.Pxf.Token.{Position, TokenKind}
use protowire_rust.Pxf.Lexer.Cursor.{Lexer, reposition_to}
use protowire_rust.Pxf.Lexer.Next.{is_eof}
use protowire_rust.Pxf.Lexer.Moves.{IsPast, advance_loop-IsPast}
use protowire_rust.Pxf.Lexer.Place.{reach}
use protowire_rust.Pxf.Parser.Bytes.{find_matching_brace, strict_decode_base64}
use protowire_rust.Pxf.Parser.Braces.{find_matching_brace_bounds}
use protowire_rust.Pxf.Parser.Columns.{column_path_error}
use protowire_rust.Pxf.Parser.Values.{parse_value, parse_block_val}
use protowire_rust.Pxf.Parser.Directives.{
  enough, prefix_loop, parse_directive, parse_row_cell, cells_loop, parse_dataset_row, names_loop,
  rows_loop, dataset_type, column_list, parse_dataset_directive, capture_brace_body, proto_body,
  parse_proto_directive, is_future_reserved_directive,
}
use protowire_rust.Pxf.Parser.State.{Parser, at, same, advance, flush_comments, peek_kind}
use protowire_rust.Pxf.Parser.Halts.{
  Halts, returned, failed, Option-Halts, guard-Halts, elim-Halts, >>=-Halts, at-at_hand, IsUnder,
  IsUnder-le, advance-room, advance-IsUnder, advance-less, under_none, flush_comments-IsUnder,
}
use protowire_rust.Pxf.Parser.ValuesHalt.{parse_value-Halts, parse_block_val-Halts}

-- An offset inside the input is where the lexer is put, in the same input.
reposition_to-at :
    (lx : Lexer) (target : ℕ)
    → target ≤ length lx.input
    → lx.pos ≤ length lx.input
    → IsPast lx.input 0 (reposition_to target lx) × ((reposition_to target lx).pos ≡ target)
unfolding reposition_to
reposition_to-at lx target inside here = elim (Bool-cases (ltb target lx.pos)) [
  | inl back ↦
      let start = record lx { pos = 0; line = 1; col = 1 } in
      rw back (
        advance_loop-IsPast (length lx.input) (λ q. ltb q.pos target) {lx = start}
            (record { same = refl; from = omega arith; inside = omega arith }),
        reach (length lx.input) target start (omega arith) inside (omega arith),
      )
  | inr on ↦ rw on (
    advance_loop-IsPast (length lx.input) (λ q. ltb q.pos target) {lx = lx}
        (record { same = refl; from = omega arith; inside = here }),
    reach (length lx.input) target lx (ground arith) inside (omega arith),
  )
]

module _ {s : List ℕ} {m : ℕ} where
  enough-room : (p : Parser) → m ≤ suc (length s) → IsUnder s m p → 4 * m ≤ enough p
  enough-room p le h = omega (arith, le, ap length h.same)

  peek_kind-Halts : (p : Parser) → IsUnder s m p → Halts (λ _. Unit {0}) (peek_kind p)
  unfolding peek_kind
  peek_kind-Halts p h = >>=-Halts (advance p) _ (advance-IsUnder h) λ q _. returned tt

prefix_loop-Halts :
    (fuel end_offset : ℕ) {s : List ℕ} {m : ℕ} (p : Parser)
    → m ≤ fuel
    → IsUnder s m p
    → Halts (λ r. IsUnder s m r.2) (prefix_loop fuel end_offset p)
unfolding prefix_loop is_eof
prefix_loop-Halts zero end_offset p le h = absurd (under_none (omega (arith, le)) h)
prefix_loop-Halts (suc fuel) end_offset p le h =
    elim-Halts (at TokenKind.ident p) _ _
      (λ ident. >>=-Halts (peek_kind p) _ (peek_kind-Halts p h) λ next _.
        elim-Halts (same next TokenKind.equals || same next TokenKind.colon) _ _ (λ _. returned h)
          λ _.
            >>=-Halts (advance p) _ (advance-less h (at-at_hand TokenKind.ident p ident refl))
              λ q hq.
                >>=-Halts (prefix_loop fuel _ q) _
                  (prefix_loop-Halts fuel _ q (omega (arith, le)) hq)
                  λ r hr. returned (IsUnder-le (omega arith) hr))
      (λ _. returned h)

pub parse_directive-Halts :
    {s : List ℕ} {m : ℕ} (p : Parser)
    → m ≤ suc (length s)
    → at TokenKind.at_directive p ≡ true
    → IsUnder s m p
    → Halts (λ r. IsUnder s (m - 1) r.2) (parse_directive p)
unfolding parse_directive is_eof
parse_directive-Halts p le opens h =
    guard-Halts (not (is_future_reserved_directive p.current.value)) _ _ _ λ _.
      >>=-Halts (advance (flush_comments p)) _
        (advance-less (flush_comments-IsUnder h) (at-at_hand TokenKind.at_directive p opens refl))
        λ q hq.
          >>=-Halts (prefix_loop (suc (length p.lex.input)) _ q) _
            (prefix_loop-Halts (suc (length p.lex.input)) _ q (omega (arith, le, ap length h.same))
              hq)
            λ (prefixes, last, r) hr.
              elim-Halts (at TokenKind.l_brace r) _ _
                (λ brace.
                  >>=-Halts (parse_block_val (enough r) r) _
                    (parse_block_val-Halts (enough r) r
                      (omega (arith, enough-room r (omega (arith, le)) hr)) brace hr)
                    λ (checked, t) ht.
                      Option-Halts (find_matching_brace t.lex.input r.current.pos.offset) _ _
                        (λ _. failed) λ close _. returned (IsUnder-le (omega arith) ht))
                (λ _. returned hr)

parse_row_cell-Halts :
    {s : List ℕ} {m : ℕ} (p : Parser)
    → m ≤ suc (length s)
    → IsUnder s m p
    → Halts (λ r. IsUnder s m r.1) (parse_row_cell p)
unfolding parse_row_cell
parse_row_cell-Halts p le h =
    elim-Halts (at TokenKind.comma p || at TokenKind.r_paren p) _ _ (λ _. returned h)
      λ _.
        >>=-Halts (parse_value (enough p) p) _
          (parse_value-Halts (enough p) p (enough-room p le h) h)
          λ (v, q) hq. returned (IsUnder-le (omega arith) hq)

cells_loop-Halts :
    (fuel : ℕ) {s : List ℕ} {m : ℕ} (p : Parser)
    → m ≤ fuel
    → m ≤ suc (length s)
    → IsUnder s m p
    → Halts (λ r. IsUnder s m r.1) (cells_loop fuel p)
unfolding cells_loop is_eof
cells_loop-Halts zero p room le h = absurd (under_none (omega (arith, room)) h)
cells_loop-Halts (suc fuel) p room le h =
    elim-Halts (at TokenKind.comma p) _ _
      (λ comma.
        >>=-Halts (advance p) _ (advance-less h (at-at_hand TokenKind.comma p comma refl)) λ q hq.
          >>=-Halts (parse_row_cell q) _ (parse_row_cell-Halts q (omega (arith, le)) hq)
            λ (c, r) hr.
              >>=-Halts (cells_loop fuel r) _
                (cells_loop-Halts fuel r (omega (arith, room)) (omega (arith, le)) hr)
                λ (cs, t) ht. returned (IsUnder-le (omega arith) ht))
      (λ _. returned h)

-- A row takes what its first move takes.
pub parse_dataset_row-Halts :
    (expected : ℕ) {s : List ℕ} {m : ℕ} (p : Parser)
    → p.lex.input ≡ s
    → m ≤ suc (length s)
    → Halts (IsUnder s m) (advance p)
    → Halts (λ r. IsUnder s m r.2) (parse_dataset_row expected p)
unfolding parse_dataset_row
parse_dataset_row-Halts expected p e le first = >>=-Halts (advance p) _ first λ q hq.
    >>=-Halts (parse_row_cell q) _ (parse_row_cell-Halts q (omega (arith, le)) hq) λ (c, r) hr.
      >>=-Halts (cells_loop (suc (length p.lex.input)) r) _
        (cells_loop-Halts (suc (length p.lex.input)) r (omega (arith, le, ap length e))
          (omega (arith, le)) hr)
        λ (cs, t) ht. guard-Halts (at TokenKind.r_paren t) _ _ _ λ _.
          >>=-Halts (advance t) _ (advance-IsUnder ht) λ u hu. guard-Halts _ _ _ _ λ _. returned hu

names_loop-Halts :
    (fuel : ℕ) {s : List ℕ} {m : ℕ} (p : Parser)
    → m ≤ fuel
    → IsUnder s m p
    → Halts (λ r. IsUnder s m r.2) (names_loop fuel p)
unfolding names_loop is_eof
names_loop-Halts zero p room h = absurd (under_none (omega (arith, room)) h)
names_loop-Halts (suc fuel) p room h = guard-Halts (at TokenKind.ident p) _ _ _ λ ident.
    >>=-Halts (advance p) _ (advance-less h (at-at_hand TokenKind.ident p ident refl)) λ q hq.
      elim-Halts (at TokenKind.comma q) _ _
        (λ _. >>=-Halts (advance q) _ (advance-IsUnder hq) λ r hr.
          >>=-Halts (names_loop fuel r) _ (names_loop-Halts fuel r (omega (arith, room)) hr)
            λ (cs, ps, t) ht. returned (IsUnder-le (omega arith) ht))
        (λ _.
          guard-Halts (at TokenKind.r_paren q) _ _ _ λ _. returned (IsUnder-le (omega arith) hq))

rows_loop-Halts :
    (fuel expected end_offset : ℕ) {s : List ℕ} {m : ℕ} (p : Parser)
    → m ≤ fuel
    → m ≤ suc (length s)
    → IsUnder s m p
    → Halts (λ r. IsUnder s m r.2) (rows_loop fuel expected end_offset p)
unfolding rows_loop is_eof
rows_loop-Halts zero expected end_offset p room le h = absurd (under_none (omega (arith, room)) h)
rows_loop-Halts (suc fuel) expected end_offset p room le h =
    elim-Halts (at TokenKind.l_paren p) _ _
      (λ opens.
        >>=-Halts (parse_dataset_row expected p) _
          (parse_dataset_row-Halts expected p h.same (omega (arith, le))
            (advance-less h (at-at_hand TokenKind.l_paren p opens refl)))
          λ (row, row_end, q) hq.
            >>=-Halts (rows_loop fuel expected row_end q) _
              (rows_loop-Halts fuel expected row_end q (omega (arith, room)) (omega (arith, le)) hq)
              λ (rows, last, r) hr. returned (IsUnder-le (omega arith) hr))
      (λ _. returned h)

module _ {s : List ℕ} {m : ℕ} where
  dataset_type-Halts : (p : Parser) → IsUnder s m p → Halts (λ r. IsUnder s m r.1) (dataset_type p)
  unfolding dataset_type
  dataset_type-Halts p h =
      elim-Halts (at TokenKind.ident p) _ _
        (λ _. >>=-Halts (advance p) _ (advance-IsUnder h) λ q hq. returned hq) (λ _. returned h)

  column_list-Halts :
      (p : Parser)
      → m ≤ suc (length s)
      → IsUnder s m p
      → Halts (λ r. IsUnder s m r.1) (column_list p)
  unfolding column_list
  column_list-Halts p le h = guard-Halts (at TokenKind.l_paren p) _ _ _ λ _.
      >>=-Halts (advance p) _ (advance-IsUnder h) λ q hq.
        guard-Halts (at TokenKind.ident q) _ _ _ λ _.
          >>=-Halts (names_loop (suc (length p.lex.input)) q) _
            (names_loop-Halts (suc (length p.lex.input)) q (omega (arith, le, ap length h.same)) hq)
            λ (columns, ps, r) hr.
              Option-Halts (column_path_error columns) _ _ (λ _. returned hr) λ x _. failed

pub parse_dataset_directive-Halts :
    {s : List ℕ} {m : ℕ} (p : Parser)
    → m ≤ suc (length s)
    → at TokenKind.at_dataset p ≡ true
    → IsUnder s m p
    → Halts (λ r. IsUnder s (m - 1) r.2) (parse_dataset_directive p)
unfolding parse_dataset_directive is_eof
parse_dataset_directive-Halts p le opens h =
    >>=-Halts (advance (flush_comments p)) _
      (advance-less (flush_comments-IsUnder h) (at-at_hand TokenKind.at_dataset p opens refl))
      λ q hq. >>=-Halts (dataset_type q) _ (dataset_type-Halts q hq) λ (name, r) hr.
        >>=-Halts (column_list r) _ (column_list-Halts r (omega (arith, le)) hr) λ (columns, t) ht.
          >>=-Halts (advance t) _ (advance-IsUnder ht) λ u hu.
            >>=-Halts (rows_loop (suc (length p.lex.input)) (length columns) _ u) _
              (rows_loop-Halts (suc (length p.lex.input)) (length columns) _ u
                (omega (arith, le, ap length h.same)) (omega (arith, le)) hu)
              λ (rows, last, v) hv. returned hv

-- The lexer goes on behind the closing brace, which is behind the token at hand.
capture_brace_body-Halts :
    {s : List ℕ} {m : ℕ} (at_pos : Position) (label : List ℕ) (p : Parser)
    → IsUnder s m p
    → Halts (λ r. IsUnder s m r.2) (capture_brace_body at_pos label p)
unfolding capture_brace_body
capture_brace_body-Halts at_pos label p h =
    Option-Halts (find_matching_brace p.lex.input p.current.pos.offset) _ _ (λ _. failed)
      λ close e.
        let (behind, inside, brace) =
          find_matching_brace_bounds p.lex.input p.current.pos.offset close e in
        let (moved, placed) =
          reposition_to-at p.lex (close + 1) (omega (arith, inside))
            (omega (arith, h.inside, ap length h.same)) in
        >>=-Halts (advance (record p { lex = reposition_to (close + 1) p.lex })) _
          (advance-room (record p { lex = reposition_to (close + 1) p.lex }) (moved.same ∙ h.same)
            (omega (arith, placed, inside, ap length h.same))
            (omega (arith, placed, behind, h.ahead)))
          λ q hq. returned hq

proto_body-Halts :
    {s : List ℕ} {m : ℕ} (at_pos : Position) (p : Parser)
    → IsUnder s m p
    → Halts (λ r. IsUnder s m r.4) (proto_body at_pos p)
unfolding proto_body
proto_body-Halts at_pos p h =
    elim-Halts (at TokenKind.l_brace p) _ _
      (λ _.
        >>=-Halts (capture_brace_body _ _ p) _ (capture_brace_body-Halts _ _ p h)
          λ (body, last, q) hq. returned hq)
      λ _.
        elim-Halts (at TokenKind.ident p) _ _
          (λ _. >>=-Halts (advance p) _ (advance-IsUnder h) λ q hq.
            guard-Halts (at TokenKind.l_brace q) _ _ _ λ _.
              >>=-Halts (capture_brace_body _ _ q) _ (capture_brace_body-Halts _ _ q hq)
                λ (body, last, r) hr. returned hr)
          λ _.
            elim-Halts (at TokenKind.string p) _ _
              (λ _. >>=-Halts (advance p) _ (advance-IsUnder h) λ q hq. returned hq)
              λ _.
                elim-Halts (at TokenKind.bytes p) _ _
                  (λ _.
                    Option-Halts (strict_decode_base64 p.current.value) _ _ (λ _. failed)
                      λ decoded _. >>=-Halts (advance p) _ (advance-IsUnder h) λ q hq. returned hq)
                  (λ _. failed)

pub parse_proto_directive-Halts :
    {s : List ℕ} {m : ℕ} (p : Parser)
    → at TokenKind.at_proto p ≡ true
    → IsUnder s m p
    → Halts (λ r. IsUnder s (m - 1) r.2) (parse_proto_directive p)
unfolding parse_proto_directive is_eof
parse_proto_directive-Halts p opens h =
    >>=-Halts (advance (flush_comments p)) _
      (advance-less (flush_comments-IsUnder h) (at-at_hand TokenKind.at_proto p opens refl))
      λ q hq.
        >>=-Halts (proto_body p.current.pos q) _ (proto_body-Halts p.current.pos q hq)
          λ (shape, name, body, last, r) hr. returned hr
