-- ===== src/Pxf/Dataset/Refines.antt =====
-- crates/protowire-pxf/src/dataset_reader.rs, `next_row` over a source in pieces, against the row
-- that stands in the text as a whole.
use protowire_rust.Prelude.{
  ℕ, zero, suc, ◌+◌, ◌≤◌, ◌<◌, List, [], ◌++◌, Bool, true, false, Option, none, some, ◌≡◌, ◌≢◌, inl,
  inr, refl, sym, ap, ◌∙◌, subst, arith, leb, Bool-cases, elim-cases, length, length-append,
  append-nil, if◌then◌else◌,
}
use protowire_rust.Pxf.Limits.{Limits}
use protowire_rust.Pxf.Lexer.Cursor.{Outcome, returns, panics, stuck, ◌>>=◌}
use protowire_rust.Pxf.Dataset.Scan.{
  StreamError, entries_beside_rows, row_not_utf8, row_not_ended, row_too_large, parse_failed,
  Streamed, FindRow, found, done, need_more, in_row, find_next_row, paren_loop,
  find_matching_paren_safe, row_at,
}
use protowire_rust.Pxf.Dataset.Scan
use protowire_rust.Pxf.Dataset.Found.{EndsOpen, find_next_row-stays}
use protowire_rust.Pxf.Dataset.Reader.{
  Source, DatasetReader, NextRow, refused, ended, refuse, at_end, refill, row_loop, next_row,
  stream_pull_size, pull,
}
use protowire_rust.Pxf.Dataset.Delivers.{
  Returned, returned, Delivers, text, measure, Follows, Pulled, pull-Returned,
}
use protowire_rust.Pxf.Dataset.Rows.{
  row_of_text, Agrees, answers_same, both_panic, cut_short, answered-Agrees,
}

-- A search that wants more bytes, and one that has its answer.
data Search (input : List ℕ) : Type 0 where
  wants :
      (inside : Bool)
      → find_next_row input ≡ Scan.ok (if inside then in_row else need_more)
      → Search input
  has :
      find_next_row input ≢ Scan.ok need_more → find_next_row input ≢ Scan.ok in_row → Search input

find_next_row-Search :
    (input : List ℕ) (x : Streamed FindRow) → find_next_row input ≡ x → Search input
find_next_row-Search input (Scan.err y) e = has (λ k. cc) (λ k. cc)
find_next_row-Search input (Scan.ok (found start stop)) e = has (λ k. cc) (λ k. cc)
find_next_row-Search input (Scan.ok done) e = has (λ k. cc) (λ k. cc)
find_next_row-Search input (Scan.ok need_more) e = wants false e
find_next_row-Search input (Scan.ok in_row) e = wants true e

module _ {source : Source} {tries : ℕ} (d : Delivers source tries) where
  rows_after :
      {r r' : DatasetReader source} {m : Outcome (NextRow × DatasetReader source)}
      {o : Outcome (NextRow × List ℕ)}
      → Follows d r r'
      → Agrees d r' m o
      → Agrees d r m o
  rows_after f (answers_same e g) =
      answers_same e (record {
        columns = g.columns ∙ f.columns;
        limits = g.limits ∙ f.limits;
        at_end = g.at_end;
      })
  rows_after f both_panic = both_panic
  rows_after f (cut_short e) = cut_short e

  -- No more bytes come.
  exhausted-Agrees :
      (inside : Bool) (r : DatasetReader source)
      → find_next_row r.pending ≡ Scan.ok (if inside then in_row else need_more)
      → d.left r.src ≡ []
      → Agrees d r (returns (at_end inside r)) (row_of_text r.columns r.limits (text d r))
  unfolding row_of_text
  exhausted-Agrees inside r e none_left =
      let whole : text d r ≡ r.pending =
        ap (λ t. r.pending ++ t) none_left ∙ append-nil r.pending in
      subst (λ t. Agrees d r (returns (at_end inside r)) (row_of_text r.columns r.limits t))
        (sym whole) (go inside e whole)
    where
      go :
          (b : Bool)
          → find_next_row r.pending ≡ Scan.ok (if b then in_row else need_more)
          → text d r ≡ r.pending
          → Agrees d r (returns (at_end b r)) (row_of_text r.columns r.limits r.pending)
      go false x whole =
          rw (x, row_of_text)
            (answers_same whole (record { columns = refl; limits = refl; at_end = λ _. none_left }))
      go true x whole =
          rw (x, row_of_text)
            (answers_same whole (record { columns = refl; limits = refl; at_end = λ _. none_left }))

  pulled :
      (again : DatasetReader source → Outcome (NextRow × DatasetReader source))
      (r : DatasetReader source) (m : Outcome (Option StreamError × DatasetReader source))
      (o : Outcome (NextRow × List ℕ))
      → Returned (Pulled d r) m
      → ((r' : DatasetReader source)
          → text d r' ≡ text d r
          → Follows d r r'
          → measure d r' < measure d r
          → Agrees d r (again r') o)
      → Agrees d r
          (m >>= λ (e, r'). elim e [ none ↦ again r' | some why ↦ returns (refuse why r') ])
          o
  pulled again r (returns (none, r')) o (returned h) next = next r' h.same h.follows h.less
  pulled again r (returns (some why, r')) o (returned h) next = absurd (ground (arith, h.no_error))
  pulled again r panics o h next = elim h [ ]
  pulled again r stuck o h next = elim h [ ]

  -- More bytes, and then the loop again.
  refill-Agrees :
      (again : DatasetReader source → Outcome (NextRow × DatasetReader source)) (inside : Bool)
      (r : DatasetReader source) (o : Outcome (NextRow × List ℕ))
      → length (text d r) < r.limits.max_message_size
      → (r.src_eof ≡ true → Agrees d r (returns (at_end inside r)) o)
      → ((r' : DatasetReader source)
          → text d r' ≡ text d r
          → Follows d r r'
          → measure d r' < measure d r
          → Agrees d r (again r') o)
      → Agrees d r (refill tries again inside r) o
  unfolding refill
  refill-Agrees again inside r o small ended_ next =
      elim-cases (λ m. Agrees d r m o) r.src_eof _ _ ended_
        λ open_.
          elim-cases (λ m. Agrees d r m o) (leb r.limits.max_message_size (length r.pending)) _ _
            (λ full. absurd (ground (arith, full, small, length-append r.pending (d.left r.src))))
            (λ _.
              pulled again r (pull tries stream_pull_size r) o
                (pull-Returned d tries stream_pull_size r (omega arith) open_ (d.patient r.src))
                next)

  wants-Agrees :
      (fuel : ℕ) (inside : Bool) (r : DatasetReader source) (o : Outcome (NextRow × List ℕ))
      → find_next_row r.pending ≡ Scan.ok (if inside then in_row else need_more)
      → Agrees d r (refill tries (row_loop tries fuel) inside r) o
      → Agrees d r (row_loop tries (suc fuel) r) o
  unfolding row_loop
  wants-Agrees fuel false r o e h = rw (e, row_loop) h
  wants-Agrees fuel true r o e h = rw (e, row_loop) h

  cut-Agrees :
      (fuel : ℕ) (r : DatasetReader source) (o : Outcome (NextRow × List ℕ))
      → find_next_row r.pending ≡ Scan.err entries_beside_rows
      → EndsOpen r.pending
      → Agrees d r (row_loop tries (suc fuel) r) o
  unfolding row_loop
  cut-Agrees fuel r o e cut = rw (e, row_loop) (cut_short cut)

  same_row :
      (r r' : DatasetReader source)
      → text d r' ≡ text d r
      → Follows d r r'
      → row_of_text r'.columns r'.limits (text d r') ≡ row_of_text r.columns r.limits (text d r)
  same_row r r' same f = cc

  row_loop-Agrees :
      (fuel : ℕ) (r : DatasetReader source)
      → (r.src_eof ≡ true → d.left r.src ≡ [])
      → length (text d r) < r.limits.max_message_size
      → measure d r < fuel
      → Agrees d r (row_loop tries fuel r) (row_of_text r.columns r.limits (text d r))
  row_loop-Agrees zero r ends small room = absurd (omega (arith, room))
  row_loop-Agrees (suc fuel) r ends small room =
      elim (find_next_row-Search r.pending (find_next_row r.pending) refl) [
        | has m k ↦ elim (find_next_row-stays r.pending (d.left r.src) m k) [
          | inl same ↦ answered-Agrees d (find_next_row r.pending) fuel r refl same m k ends
          | inr (e, cut) ↦ cut-Agrees fuel r _ e cut
        ]
        | wants inside e ↦
            let o = row_of_text r.columns r.limits (text d r) in
            wants-Agrees fuel inside r o e (
              refill-Agrees (row_loop tries fuel) inside r o small
                (λ eof. exhausted-Agrees inside r e (ends eof))
                λ r' same f less. rows_after f (
                  subst (λ t. Agrees d r' (row_loop tries fuel r') t) (same_row r r' same f)
                    (row_loop-Agrees fuel r' f.at_end
                      (omega (
                        arith,
                        ap length same,
                        ap (λ (l : Limits). l.max_message_size) f.limits,
                        small,
                      ))
                      (omega (arith, less, room)))))
      ]

  entered :
      {r : DatasetReader source} {x : Outcome (NextRow × DatasetReader source)}
      {o : Outcome (NextRow × List ℕ)} (e : Option StreamError) (b : Bool)
      → e ≡ none
      → b ≡ false
      → Agrees d r x o
      → Agrees d r
          (elim e [
            | some why ↦ returns (refused why, r)
            | none ↦ elim b [ true ↦ returns (ended, r) | false ↦ x ]
          ])
          o
  entered none false clear on h = h
  entered none true clear on h = absurd (ground (arith, on))
  entered (some why) b clear on h = absurd (ground (arith, clear))

  measure_at_most : (r : DatasetReader source) → measure d r ≤ length (d.left r.src) + 1
  measure_at_most r = elim (Bool-cases r.src_eof) [
    | inl e ↦ rw e (omega arith)
    | inr e ↦ rw e (omega arith)
  ]

  -- Over a source that delivers its bytes in pieces of any size, and is interrupted fewer than `tries`
  -- times in a row, a reader that has neither failed nor finished answers with the next row, the end or
  -- the error of the text as a whole, and keeps the text behind it: what it has at hand, followed by what
  -- is left in the source. It may refuse instead only where the bytes at hand end in one that may start
  -- a comment or a bytes literal. The text is smaller than the size limit, nothing is left where the
  -- reader has seen the end, and the fuel is more than the bytes that are left and one more.
  pub next_row-Agrees :
      (fuel : ℕ) (r : DatasetReader source)
      → r.error ≡ none
      → r.finished ≡ false
      → (r.src_eof ≡ true → d.left r.src ≡ [])
      → length (text d r) < r.limits.max_message_size
      → length (d.left r.src) + 1 < fuel
      → Agrees d r (next_row tries fuel r) (row_of_text r.columns r.limits (text d r))
  unfolding next_row
  next_row-Agrees fuel r clear on ends small room =
      entered r.error r.finished clear on
        (row_loop-Agrees fuel r ends small (omega (arith, room, measure_at_most r)))
