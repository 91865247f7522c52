-- ===== src/Pxf/Dataset/Sticky.antt =====
-- crates/protowire-pxf/src/dataset_reader.rs, `next_row`: what it answers after an error or the end.
use protowire_rust.Prelude.{
  ℕ, zero, suc, [], ◌∷◌, Bool, true, false, Option, none, some, ◌≡◌, ◌≢◌, refl, subst, arith, leb,
  length,
}
use protowire_rust.Pxf.Ast.{DatasetRow}
use protowire_rust.Pxf.Lexer.Cursor.{Outcome, returns, panics, stuck, ◌>>=◌}
use protowire_rust.Pxf.Parser.State
use protowire_rust.Pxf.Dataset.Scan.{
  StreamError, Streamed, FindRow, found, done, need_more, in_row, find_next_row,
}
use protowire_rust.Pxf.Dataset.Scan
use protowire_rust.Pxf.Dataset.Reader.{
  Source, Answer, got, interrupted, failed, DatasetReader, NextRow, row, refused, ended,
  take_answer, pull, refuse, row_parsed, take_row, at_end, refill, row_loop, next_row,
  stream_pull_size,
}

module _ {source : Source} where
  data Kept (e : Option StreamError)
      : Outcome (Option StreamError × DatasetReader source) → Type 0 where
    kept :
        {x : Option StreamError} {r : DatasetReader source} → r.error ≡ e → Kept e (returns (x, r))
    waits : Kept e stuck

  take_answer-Kept :
      (again : DatasetReader source → Outcome (Option StreamError × DatasetReader source))
      (x : Answer × source.State) (r : DatasetReader source)
      → ((s : source.State) → Kept r.error (again (record r { src = s })))
      → Kept r.error (take_answer again x r)
  unfolding take_answer
  take_answer-Kept again (got [], s) r h = kept refl
  take_answer-Kept again (got (b ∷ bs), s) r h = kept refl
  take_answer-Kept again (interrupted, s) r h = h s
  take_answer-Kept again (failed why, s) r h = kept refl

  if-Kept :
      (e : Option StreamError) (b : Bool)
      (x y : Outcome (Option StreamError × DatasetReader source))
      → Kept e x
      → Kept e y
      → Kept e (elim b [ true ↦ x | false ↦ y ])
  if-Kept e true x y h k = h
  if-Kept e false x y h k = k

  pull-Kept : (tries n : ℕ) (r : DatasetReader source) → Kept r.error (pull tries n r)
  unfolding pull
  pull-Kept zero n r = waits
  pull-Kept (suc tries) n r = if-Kept r.error r.src_eof _ _ (kept refl) (
      take_answer-Kept (pull tries n) (source.read n r.src) r
        λ s. pull-Kept tries n (record r { src = s }))

  -- An answer, with the reader that answers the same when it is asked again.
  data Sticky : Outcome (NextRow × DatasetReader source) → Type 0 where
    of_row : {cells : DatasetRow} {r : DatasetReader source} → Sticky (returns (row cells, r))
    of_error :
        {e : StreamError} {r : DatasetReader source}
        → r.error ≡ some e
        → Sticky (returns (refused e, r))
    of_end :
        {r : DatasetReader source}
        → r.error ≡ none
        → r.finished ≡ true
        → Sticky (returns (ended, r))
    of_panic : Sticky panics
    of_loop : Sticky stuck

  if-Sticky :
      (b : Bool) (x y : Outcome (NextRow × DatasetReader source))
      → Sticky x
      → Sticky y
      → Sticky (elim b [ true ↦ x | false ↦ y ])
  if-Sticky true x y h k = h
  if-Sticky false x y h k = k

  row_parsed-Sticky :
      (utf8 : Bool) (x : State.Result DatasetRow) (r : DatasetReader source)
      → Sticky (row_parsed utf8 x r)
  unfolding row_parsed
  row_parsed-Sticky false x r = of_error refl
  row_parsed-Sticky true (State.ok cells) r = of_row
  row_parsed-Sticky true (State.err pos reason) r = of_error refl
  row_parsed-Sticky true State.panics r = of_panic
  row_parsed-Sticky true State.stuck r = of_loop

  at_end-Sticky :
      (inside : Bool) (r : DatasetReader source)
      → r.error ≡ none
      → Sticky (returns (at_end inside r))
  at_end-Sticky true r clear = of_error refl
  at_end-Sticky false r clear = of_end clear refl

  pulled :
      (again : DatasetReader source → Outcome (NextRow × DatasetReader source))
      (m : Outcome (Option StreamError × DatasetReader source))
      → Kept none m
      → ((r : DatasetReader source) → r.error ≡ none → Sticky (again r))
      → Sticky (m >>= λ (e, r). elim e [ none ↦ again r | some why ↦ returns (refuse why r) ])
  pulled again (returns (none, r)) (kept e) h = h r e
  pulled again (returns (some why, r)) k h = of_error refl
  pulled again panics k h = of_panic
  pulled again stuck k h = of_loop

  refill-Sticky :
      (tries : ℕ) (again : DatasetReader source → Outcome (NextRow × DatasetReader source))
      (inside : Bool) (r : DatasetReader source)
      → r.error ≡ none
      → ((r' : DatasetReader source) → r'.error ≡ none → Sticky (again r'))
      → Sticky (refill tries again inside r)
  unfolding refill
  refill-Sticky tries again inside r clear h =
      if-Sticky r.src_eof _ _ (at_end-Sticky inside r clear) (
        if-Sticky (leb r.limits.max_message_size (length r.pending)) _ _ (of_error refl) (
          pulled again (pull tries stream_pull_size r)
            (subst (λ e. Kept e (pull tries stream_pull_size r)) clear
              (pull-Kept tries stream_pull_size r))
            h))

  round :
      (tries fuel : ℕ) (x : Streamed FindRow) (r : DatasetReader source)
      → r.error ≡ none
      → ((r' : DatasetReader source) → r'.error ≡ none → Sticky (row_loop tries fuel r'))
      → find_next_row r.pending ≡ x
      → Sticky (row_loop tries (suc fuel) r)
  unfolding row_loop take_row
  round tries fuel (Scan.err e) r clear h at = rw (at, row_loop) (of_error refl)
  round tries fuel (Scan.ok (found start stop)) r clear h at =
      rw (at, row_loop) (row_parsed-Sticky _ _ _)
  round tries fuel (Scan.ok done) r clear h at = rw (at, row_loop) (of_end clear refl)
  round tries fuel (Scan.ok need_more) r clear h at =
      rw (at, row_loop) (refill-Sticky tries (row_loop tries fuel) false r clear h)
  round tries fuel (Scan.ok in_row) r clear h at =
      rw (at, row_loop) (refill-Sticky tries (row_loop tries fuel) true r clear h)

  row_loop-Sticky :
      (tries fuel : ℕ) (r : DatasetReader source) → r.error ≡ none → Sticky (row_loop tries fuel r)
  unfolding row_loop
  row_loop-Sticky tries zero r clear = of_loop
  row_loop-Sticky tries (suc fuel) r clear =
      round tries fuel (find_next_row r.pending) r clear (λ r' e. row_loop-Sticky tries fuel r' e)
        refl

  next_row-Sticky : (tries fuel : ℕ) (r : DatasetReader source) → Sticky (next_row tries fuel r)
  unfolding next_row
  next_row-Sticky tries fuel r = go r.error r.finished refl refl
    where
      go :
          (e : Option StreamError) (b : Bool)
          → r.error ≡ e
          → r.finished ≡ b
          → Sticky (elim e [
            | some why ↦ returns (refused why, r)
            | none ↦ elim b [ true ↦ returns (ended, r) | false ↦ row_loop tries fuel r ]
          ])
      go (some why) b h k = of_error h
      go none true h k = of_end h k
      go none false h k = row_loop-Sticky tries fuel r h

  abbrev entered :
      Option StreamError
      → Bool
      → DatasetReader source
      → Outcome (NextRow × DatasetReader source)
      → Outcome (NextRow × DatasetReader source)
  entered e b r o = elim e [
    | some why ↦ returns (refused why, r)
    | none ↦ elim b [ true ↦ returns (ended, r) | false ↦ o ]
  ]

  still_refused :
      {e : StreamError} (x : Option StreamError) (b : Bool) (r : DatasetReader source)
      (o : Outcome (NextRow × DatasetReader source))
      → x ≡ some e
      → entered x b r o ≡ returns (refused e, r)
  still_refused none b r o h = absurd (ground (arith, h))
  still_refused (some why) b r o h = cc

  still_ended :
      (x : Option StreamError) (b : Bool) (r : DatasetReader source)
      (o : Outcome (NextRow × DatasetReader source))
      → x ≡ none
      → b ≡ true
      → entered x b r o ≡ returns (ended, r)
  still_ended none true r o h k = refl
  still_ended none false r o h k = absurd (ground (arith, k))
  still_ended (some why) b r o h k = absurd (ground (arith, h))

  again-Sticky :
      (tries fuel : ℕ) (a : NextRow) (r : DatasetReader source)
      → Sticky (returns (a, r))
      → ((cells : DatasetRow) → a ≢ row cells)
      → next_row tries fuel r ≡ returns (a, r)
  unfolding next_row
  again-Sticky tries fuel (row cells) r h other = absurd (other cells refl)
  again-Sticky tries fuel (refused e) r (of_error h) other = still_refused r.error r.finished r _ h
  again-Sticky tries fuel ended r (of_end h k) other = still_ended r.error r.finished r _ h k

  -- Over any source, an answer of next_row that is not a row is its answer to every later call, which
  -- leaves the reader as it is: an error is answered again and again, and so is the end.
  pub next_row_again :
      (tries fuel tries' fuel' : ℕ) (r r' : DatasetReader source) (a : NextRow)
      → next_row tries fuel r ≡ returns (a, r')
      → ((cells : DatasetRow) → a ≢ row cells)
      → next_row tries' fuel' r' ≡ returns (a, r')
  next_row_again tries fuel tries' fuel' r r' a e other =
      again-Sticky tries' fuel' a r' (subst Sticky e (next_row-Sticky tries fuel r)) other
