-- ===== src/Pxf/Parser/Headers.antt =====
-- crates/protowire-pxf/src/parser.rs: what the directives before the entries leave as it is, and the
-- datasets that they give.
use protowire_rust.Prelude.{
  ℕ, zero, suc, ◌+◌, ◌≤◌, List, [], ◌||◌, ◌≡◌, ◌≢◌, refl, arith, Option, none, some, length, All,
  ==_iff,
}
use protowire_rust.Pxf.Token.{Position, TokenKind}
use protowire_rust.Pxf.Ast.{DatasetDirective, DatasetRow, Value}
use protowire_rust.Pxf.Lexer.Cursor.{reposition_to}
use protowire_rust.Pxf.Parser.Bytes.{find_matching_brace, strict_decode_base64}
use protowire_rust.Pxf.Parser.Columns.{column_path_error}
use protowire_rust.Pxf.Parser.Values.{parse_value, parse_block_val}
use protowire_rust.Pxf.Parser.Nesting.{
  IsLow, height, IsWell, parse_value-Reads, parse_block_val-Reads,
}
use protowire_rust.Pxf.Parser.Directives.{
  enough, prefix_loop, parse_directive, parse_row_cell, cells_loop, parse_dataset_row, names_loop,
  rows_loop, dataset_type, column_list, parse_dataset_directive, capture_brace_body, proto_body,
  parse_proto_directive,
}
use protowire_rust.Pxf.Parser.State.{Parser, Result, same, at, advance, flush_comments, peek_kind}
use protowire_rust.Pxf.Parser.Ensures.{
  Ensures, ensured, failed, ran_out, guard-Ensures, elim-Ensures, >>=-Ensures, anything-Ensures,
  Keeps, Keeps-trans, advance-Keeps,
}

-- A cell is empty, or its value nests no deeper than the limit and has type entries only where they
-- may stand.
abbrev pub IsCell : (limit : ℕ) → Option Value → Type 0
IsCell limit none = Unit {0}
IsCell limit (some v) = (height v ≤ limit) × IsWell v

-- A row has as many cells as were expected.
abbrev pub IsRow : (limit expected : ℕ) → DatasetRow → Type 0
IsRow limit expected row = (length row.cells ≡ expected) × All (IsCell limit) row.cells

-- A search that finds nothing fails.
Option-Ensures :
    {A B : Type 0} {P : B → Type 0} (o : Option A) (x : Result B) (f : A → Result B)
    → (o ≡ none → Ensures P x)
    → ((a : A) → o ≡ some a → Ensures P (f a))
    → Ensures P (elim o [ none ↦ x | some a ↦ f a ])
Option-Ensures none x f h k = h refl
Option-Ensures (some a) x f h k = k a refl

module _ {p : Parser} (low : IsLow p) where
  still-IsLow : {q : Parser} → Keeps p q → IsLow q
  still-IsLow h = omega (arith, low, h.depth, h.limit)

  prefix_loop-Keeps :
      (fuel end_offset : ℕ) {q : Parser}
      → Keeps p q
      → Ensures (λ r. Keeps p r.2) (prefix_loop fuel end_offset q)
  unfolding prefix_loop
  prefix_loop-Keeps zero end_offset h = ran_out
  prefix_loop-Keeps (suc fuel) end_offset {q} h =
      elim-Ensures (at TokenKind.ident q) _ _
        (λ _.
          >>=-Ensures {Q = λ _. Unit {0}} (peek_kind q) _ (anything-Ensures _ (λ _. tt)) λ next _.
            elim-Ensures (same next TokenKind.equals || same next TokenKind.colon) _ _
              (λ _. ensured h)
              λ _. >>=-Ensures (advance q) _ (advance-Keeps h) λ r hr.
                >>=-Ensures (prefix_loop fuel _ r) _ (prefix_loop-Keeps fuel _ hr)
                  λ (rest, last, s) hs. ensured hs)
        (λ _. ensured h)

  pub parse_directive-Keeps :
      {q : Parser} → Keeps p q → Ensures (λ r. Keeps p r.2) (parse_directive q)
  unfolding parse_directive
  parse_directive-Keeps {q} h = guard-Ensures _ _ _ _ λ _.
      >>=-Ensures (advance (flush_comments q)) _
        (advance-Keeps {p = p} {q = flush_comments q} (record { depth = h.depth; limit = h.limit }))
        λ r hr.
          >>=-Ensures (prefix_loop (suc (length q.lex.input)) _ r) _
            (prefix_loop-Keeps (suc (length q.lex.input)) _ hr)
            λ (prefixes, end_offset, s) hs.
              elim-Ensures (at TokenKind.l_brace s) _ _
                (λ _.
                  >>=-Ensures (parse_block_val (enough s) s) _
                    (parse_block_val-Reads (enough s) s (still-IsLow hs))
                    λ (checked, t) ht.
                      Option-Ensures (find_matching_brace t.lex.input s.current.pos.offset) _ _
                        (λ _. failed) λ close _. ensured (Keeps-trans hs ht.keeps))
                (λ _. ensured hs)

  parse_row_cell-IsCell :
      {q : Parser}
      → Keeps p q
      → Ensures (λ r. IsCell p.limits.max_nesting_depth r.0 × Keeps p r.1) (parse_row_cell q)
  unfolding parse_row_cell
  parse_row_cell-IsCell {q} h =
      elim-Ensures (at TokenKind.comma q || at TokenKind.r_paren q) _ _ (λ _. ensured (tt, h))
        λ _.
          >>=-Ensures (parse_value (enough q) q) _ (parse_value-Reads (enough q) q (still-IsLow h))
            λ (v, r) hr.
              ensured
                ((omega (arith, hr.nested, h.depth, h.limit), hr.good), Keeps-trans h hr.keeps)

  cells_loop-AreCells :
      (fuel : ℕ) {q : Parser}
      → Keeps p q
      → Ensures (λ r. All (IsCell p.limits.max_nesting_depth) r.0 × Keeps p r.1) (cells_loop fuel q)
  unfolding cells_loop
  cells_loop-AreCells zero h = ran_out
  cells_loop-AreCells (suc fuel) {q} h =
      elim-Ensures (at TokenKind.comma q) _ _
        (λ _. >>=-Ensures (advance q) _ (advance-Keeps h) λ r hr.
          >>=-Ensures (parse_row_cell r) _ (parse_row_cell-IsCell hr) λ (c, s) hs.
            >>=-Ensures (cells_loop fuel s) _ (cells_loop-AreCells fuel hs.1)
              λ (cs, t) ht. ensured ((hs.0, ht.0), ht.1))
        (λ _. ensured (tt, h))

  pub parse_dataset_row-IsRow :
      (expected : ℕ) {q : Parser}
      → Keeps p q
      → Ensures
          (λ r. IsRow p.limits.max_nesting_depth expected r.0 × Keeps p r.2)
          (parse_dataset_row expected q)
  unfolding parse_dataset_row
  parse_dataset_row-IsRow expected {q} h = >>=-Ensures (advance q) _ (advance-Keeps h) λ r hr.
      >>=-Ensures (parse_row_cell r) _ (parse_row_cell-IsCell hr) λ (c, s) hs.
        >>=-Ensures (cells_loop (suc (length q.lex.input)) s) _
          (cells_loop-AreCells (suc (length q.lex.input)) hs.1)
          λ (cs, t) ht. guard-Ensures _ _ _ _ λ _.
            >>=-Ensures (advance t) _ (advance-Keeps ht.1) λ u hu.
              guard-Ensures _ _ _ _
                λ same_count. ensured (((==_iff _ expected).0 same_count, (hs.0, ht.0)), hu)

  rows_loop-AreRows :
      (fuel expected end_offset : ℕ) {q : Parser}
      → Keeps p q
      → Ensures
          (λ r. All (IsRow p.limits.max_nesting_depth expected) r.0 × Keeps p r.2)
          (rows_loop fuel expected end_offset q)
  unfolding rows_loop
  rows_loop-AreRows zero expected end_offset h = ran_out
  rows_loop-AreRows (suc fuel) expected end_offset {q} h =
      elim-Ensures (at TokenKind.l_paren q) _ _
        (λ _.
          >>=-Ensures (parse_dataset_row expected q) _ (parse_dataset_row-IsRow expected h)
            λ (row, row_end, r) hr.
              >>=-Ensures (rows_loop fuel expected row_end r) _
                (rows_loop-AreRows fuel expected row_end hr.1)
                λ (rows, last, s) hs. ensured ((hr.0, hs.0), hs.1))
        (λ _. ensured (tt, h))

  names_loop-Keeps :
      (fuel : ℕ) {q : Parser}
      → Keeps p q
      → Ensures (λ r. (r.0 ≢ []) × Keeps p r.2) (names_loop fuel q)
  unfolding names_loop
  names_loop-Keeps zero h = ran_out
  names_loop-Keeps (suc fuel) {q} h = guard-Ensures _ _ _ _ λ _.
      >>=-Ensures (advance q) _ (advance-Keeps h) λ r hr.
        elim-Ensures (at TokenKind.comma r) _ _
          (λ _. >>=-Ensures (advance r) _ (advance-Keeps hr) λ s hs.
            >>=-Ensures (names_loop fuel s) _ (names_loop-Keeps fuel hs)
              λ (cs, ps, t) ht. ensured (λ e. cc e, ht.1))
          (λ _. guard-Ensures _ _ _ _ λ _. ensured (λ e. cc e, hr))

  dataset_type-Keeps : {q : Parser} → Keeps p q → Ensures (λ r. Keeps p r.1) (dataset_type q)
  unfolding dataset_type
  dataset_type-Keeps {q} h =
      elim-Ensures (at TokenKind.ident q) _ _
        (λ _. >>=-Ensures (advance q) _ (advance-Keeps h) λ r hr. ensured hr) (λ _. ensured h)

  column_list-Keeps :
      {q : Parser}
      → Keeps p q
      → Ensures (λ r. (r.0 ≢ []) × (column_path_error r.0 ≡ none) × Keeps p r.1) (column_list q)
  unfolding column_list
  column_list-Keeps {q} h = guard-Ensures _ _ _ _ λ _.
      >>=-Ensures (advance q) _ (advance-Keeps h) λ r hr. guard-Ensures _ _ _ _ λ _.
        >>=-Ensures (names_loop (suc (length q.lex.input)) r) _
          (names_loop-Keeps (suc (length q.lex.input)) hr)
          λ (columns, ps, s) hs.
            Option-Ensures (column_path_error columns) _ _ (λ e. ensured (hs.0, e, hs.1))
              λ _ _. failed

-- What the parser ensures of a dataset: columns that meet the rules, and rows as long as they.
abbrev pub IsDataset : (limit : ℕ) → DatasetDirective → Type 0
IsDataset limit d =
    (d.columns ≢ [])
    × (column_path_error d.columns ≡ none)
    × All (IsRow limit (length d.columns)) d.rows

module _ {p : Parser} (low : IsLow p) where
  pub parse_dataset_directive-IsDataset :
      {q : Parser}
      → Keeps p q
      → Ensures
          (λ r. IsDataset p.limits.max_nesting_depth r.0 × Keeps p r.2)
          (parse_dataset_directive q)
  unfolding parse_dataset_directive
  parse_dataset_directive-IsDataset {q} h =
      >>=-Ensures (advance (flush_comments q)) _
        (advance-Keeps {p = p} {q = flush_comments q} (record { depth = h.depth; limit = h.limit }))
        λ r hr. >>=-Ensures (dataset_type r) _ (dataset_type-Keeps low hr) λ (name, s) hs.
          >>=-Ensures (column_list s) _ (column_list-Keeps low hs) λ (columns, t) ht.
            >>=-Ensures (advance t) _ (advance-Keeps ht.2) λ u hu.
              >>=-Ensures (rows_loop (suc (length q.lex.input)) (length columns) _ u) _
                (rows_loop-AreRows low (suc (length q.lex.input)) (length columns) _ hu)
                λ (rows, last, v) hv. ensured ((ht.0, ht.1, hv.0), hv.1)

  capture_brace_body-Keeps :
      (at_pos : Position) (label : List ℕ) {q : Parser}
      → Keeps p q
      → Ensures (λ r. Keeps p r.2) (capture_brace_body at_pos label q)
  unfolding capture_brace_body
  capture_brace_body-Keeps at_pos label {q} h =
      Option-Ensures (find_matching_brace q.lex.input q.current.pos.offset) _ _ (λ _. failed)
        λ close _.
          >>=-Ensures (advance (record q { lex = reposition_to (close + 1) q.lex })) _
            (advance-Keeps {p = p} {q = record q { lex = reposition_to (close + 1) q.lex }}
              (record { depth = h.depth; limit = h.limit }))
            λ r hr. ensured hr

  proto_body-Keeps :
      (at_pos : Position) {q : Parser}
      → Keeps p q
      → Ensures (λ r. Keeps p r.4) (proto_body at_pos q)
  unfolding proto_body
  proto_body-Keeps at_pos {q} h =
      elim-Ensures (at TokenKind.l_brace q) _ _
        (λ _.
          >>=-Ensures (capture_brace_body at_pos _ q) _ (capture_brace_body-Keeps at_pos _ h)
            λ (body, end_offset, r) hr. ensured hr)
        λ _.
          elim-Ensures (at TokenKind.ident q) _ _
            (λ _. >>=-Ensures (advance q) _ (advance-Keeps h) λ r hr. guard-Ensures _ _ _ _ λ _.
              >>=-Ensures (capture_brace_body at_pos _ r) _ (capture_brace_body-Keeps at_pos _ hr)
                λ (body, end_offset, s) hs. ensured hs)
            λ _.
              elim-Ensures (at TokenKind.string q) _ _
                (λ _. >>=-Ensures (advance q) _ (advance-Keeps h) λ r hr. ensured hr)
                λ _.
                  elim-Ensures (at TokenKind.bytes q) _ _
                    (λ _.
                      Option-Ensures (strict_decode_base64 q.current.value) _ _ (λ _. failed)
                        λ decoded _. >>=-Ensures (advance q) _ (advance-Keeps h) λ r hr. ensured hr)
                    λ _. failed

  pub parse_proto_directive-Keeps :
      {q : Parser} → Keeps p q → Ensures (λ r. Keeps p r.2) (parse_proto_directive q)
  unfolding parse_proto_directive
  parse_proto_directive-Keeps {q} h =
      >>=-Ensures (advance (flush_comments q)) _
        (advance-Keeps {p = p} {q = flush_comments q} (record { depth = h.depth; limit = h.limit }))
        λ r hr.
          >>=-Ensures (proto_body q.current.pos r) _ (proto_body-Keeps q.current.pos hr)
            λ (shape, name, body, end_offset, s) hs. ensured hs
