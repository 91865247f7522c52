-- ===== src/Pxf/Dataset/Rows.antt =====
-- crates/protowire-pxf/src/dataset_reader.rs, `next_row`: what a reader that has the row at hand
-- answers, and what stands in the text as a whole.
use protowire_rust.Prelude.{
  ℕ, zero, suc, ◌+◌, ◌-◌, ◌≤◌, ◌<◌, List, [], ◌∷◌, ◌++◌, Bool, true, false, some, ◌≡◌, ◌≢◌, refl,
  sym, ap, ◌∙◌, subst, arith, length, length-drop, take, drop,
}
use protowire_rust.Wire.Utf8.{is_utf8}
use protowire_rust.Pxf.Ast.{DatasetRow}
use protowire_rust.Pxf.Limits.{Limits}
use protowire_rust.Pxf.Lexer.Cursor.{Outcome, returns, panics, stuck}
use protowire_rust.Pxf.Parser.Directives.{slice}
use protowire_rust.Pxf.Parser.Document.{parse_row}
use protowire_rust.Pxf.Parser.State
use protowire_rust.Pxf.Parser.Termination.{parse_with_limits-ne-stuck}
use protowire_rust.Pxf.Dataset.Scan.{
  StreamError, entries_beside_rows, row_not_utf8, row_not_ended, row_too_large, parse_failed,
  Streamed, FindRow, found, done, need_more, in_row, find_next_row, paren_loop,
  find_matching_paren_safe, row_at,
}
use protowire_rust.Pxf.Dataset.Scan
use protowire_rust.Pxf.Dataset.Found.{EndsOpen}
use protowire_rust.Pxf.Dataset.Inside.{found_inside}
use protowire_rust.Pxf.Dataset.Reader.{
  Source, DatasetReader, NextRow, row, refused, ended, row_parsed, take_row, row_loop,
}
use protowire_rust.Pxf.Dataset.Delivers.{Delivers, text, Follows}

-- The next row of a text that is all at hand, and the text behind it.
unfoldable pub parsed :
    (utf8 : Bool) → State.Result DatasetRow → List ℕ → Outcome (NextRow × List ℕ)
parsed false x rest = returns (refused row_not_utf8, rest)
parsed true (State.ok cells) rest = returns (row cells, rest)
parsed true (State.err pos reason) rest = returns (refused (parse_failed pos reason), rest)
parsed true State.panics rest = panics
parsed true State.stuck rest = stuck

unfoldable pub cut_row :
    List (List ℕ) → Limits → (start stop : ℕ) → List ℕ → Outcome (NextRow × List ℕ)
unfolding parse_row parsed
cut_row columns limits start stop input =
    let cells = slice input start (stop + 1) in
    parsed (is_utf8 cells) (parse_row cells (length columns) limits) (drop (stop + 1) input)

unfoldable pub row_of_text : List (List ℕ) → Limits → List ℕ → Outcome (NextRow × List ℕ)
unfolding find_next_row cut_row
row_of_text columns limits input = elim (find_next_row input) [
  | Scan.err e ↦ returns (refused e, input)
  | Scan.ok f ↦ elim f [
    | found start stop ↦ cut_row columns limits start stop input
    | done ↦ returns (ended, input)
    | need_more ↦ returns (ended, input)
    | in_row ↦ returns (refused row_not_ended, input)
  ]
]

-- A reader agrees with a text when it answers the same and has the same text left, or when both
-- panic. Where the bytes at hand are cut at a byte that may start a comment or a bytes literal, it may
-- refuse instead.
pub data Agrees {source : Source} {tries : ℕ} (d : Delivers source tries) (r : DatasetReader source)
    : Outcome (NextRow × DatasetReader source) → Outcome (NextRow × List ℕ) → Type 0 where
  answers_same :
      {a : NextRow} {r' : DatasetReader source} {rest : List ℕ}
      → text d r' ≡ rest
      → Follows d r r'
      → Agrees d r (returns (a, r')) (returns (a, rest))
  both_panic : Agrees d r panics panics
  cut_short :
      {r' : DatasetReader source} {o : Outcome (NextRow × List ℕ)}
      → EndsOpen r'.pending
      → Agrees d r (returns (refused entries_beside_rows, r')) o

pub take-within : (k : ℕ) (xs ys : List ℕ) → k ≤ length xs → take k (xs ++ ys) ≡ take k xs
take-within zero xs ys h = refl
take-within (suc k) [] ys h = absurd (omega arith)
take-within (suc k) (x ∷ xs) ys h = ap (λ t. x ∷ t) (take-within k xs ys (omega arith))

pub drop-within : (k : ℕ) (xs ys : List ℕ) → k ≤ length xs → drop k (xs ++ ys) ≡ drop k xs ++ ys
drop-within zero xs ys h = refl
drop-within (suc k) [] ys h = absurd (omega arith)
drop-within (suc k) (x ∷ xs) ys h = drop-within k xs ys (omega arith)

slice-within :
    (xs ys : List ℕ) (from to : ℕ)
    → from ≤ length xs
    → to ≤ length xs
    → slice (xs ++ ys) from to ≡ slice xs from to
slice-within xs ys from to h k =
    ap (take (to - from)) (drop-within from xs ys h)
    ∙ take-within (to - from) (drop from xs) ys (omega (arith, length-drop from xs))

module _ {source : Source} {tries : ℕ} (d : Delivers source tries) where
  Follows-refuse :
      {r r' : DatasetReader source} {e : StreamError}
      → Follows d r r'
      → Follows d r (record r' { error = some e })
  Follows-refuse f = record { columns = f.columns; limits = f.limits; at_end = f.at_end }

  row_parsed-Agrees :
      (utf8 : Bool) (x : State.Result DatasetRow) (r r' : DatasetReader source) (rest : List ℕ)
      → x ≢ State.stuck
      → text d r' ≡ rest
      → Follows d r r'
      → Agrees d r (row_parsed utf8 x r') (parsed utf8 x rest)
  unfolding row_parsed parsed
  row_parsed-Agrees false x r r' rest never e f = answers_same e (Follows-refuse f)
  row_parsed-Agrees true (State.ok cells) r r' rest never e f = answers_same e f
  row_parsed-Agrees true (State.err pos reason) r r' rest never e f =
      answers_same e (Follows-refuse f)
  row_parsed-Agrees true State.panics r r' rest never e f = both_panic
  row_parsed-Agrees true State.stuck r r' rest never e f = absurd (never refl)

  take_row-Agrees :
      (start stop : ℕ) (r : DatasetReader source)
      → start ≤ length r.pending
      → stop < length r.pending
      → (r.src_eof ≡ true → d.left r.src ≡ [])
      → Agrees d r (take_row start stop r) (cut_row r.columns r.limits start stop (text d r))
  unfolding take_row cut_row
  take_row-Agrees start stop r h k ends =
      let here = slice-within r.pending (d.left r.src) start (stop + 1) h (omega arith) in
      let cells = slice r.pending start (stop + 1) in
      subst
        (λ t. Agrees d r (take_row start stop r) (
          parsed (is_utf8 t) (parse_row t (length r.columns) r.limits)
            (drop (stop + 1) (text d r))))
        (sym here)
        (row_parsed-Agrees (is_utf8 cells) (parse_row cells (length r.columns) r.limits) r
          (record r { pending = drop (stop + 1) r.pending }) (drop (stop + 1) (text d r))
          (parse_with_limits-ne-stuck cells (length r.columns) r.limits).1
          (sym (drop-within (stop + 1) r.pending (d.left r.src) (omega arith)))
          (record { columns = refl; limits = refl; at_end = ends }))

  -- The reader where the search has its answer in the bytes at hand.
  pub answered-Agrees :
      (x : Streamed FindRow) (fuel : ℕ) (r : DatasetReader source)
      → find_next_row r.pending ≡ x
      → find_next_row (text d r) ≡ x
      → x ≢ Scan.ok need_more
      → x ≢ Scan.ok in_row
      → (r.src_eof ≡ true → d.left r.src ≡ [])
      → Agrees d r (row_loop tries (suc fuel) r) (row_of_text r.columns r.limits (text d r))
  unfolding row_of_text row_loop
  answered-Agrees (Scan.err y) fuel r here there m k ends =
      rw (here, row_loop)
        (rw (there, row_of_text)
          (answers_same refl (record { columns = refl; limits = refl; at_end = ends })))
  answered-Agrees (Scan.ok (found start stop)) fuel r here there m k ends =
      let inside = found_inside r.pending start stop here in
      rw (here, row_loop)
        (rw (there, row_of_text)
          (take_row-Agrees start stop r (omega (arith, inside.0)) inside.1 ends))
  answered-Agrees (Scan.ok done) fuel r here there m k ends =
      rw (here, row_loop)
        (rw (there, row_of_text)
          (answers_same refl (record { columns = refl; limits = refl; at_end = ends })))
  answered-Agrees (Scan.ok need_more) fuel r here there m k ends = absurd (m refl)
  answered-Agrees (Scan.ok in_row) fuel r here there m k ends = absurd (k refl)
