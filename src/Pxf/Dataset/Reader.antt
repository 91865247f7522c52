-- ===== src/Pxf/Dataset/Reader.antt =====
-- crates/protowire-pxf/src/dataset_reader.rs, lines 30 to 310: the reader over a source of bytes. The
-- source, an `io::Read`, is a parameter. `paths_checked` is left out: only `scan_one` uses it.
use protowire_rust.Prelude.{
  ℕ, zero, suc, ◌+◌, ◌*◌, List, [], ◌∷◌, ◌++◌, Bool, true, false, Option, none, some, leb,
  if◌then◌else◌, length, take, drop,
}
use protowire_rust.Wire.Utf8.{is_utf8}
use protowire_rust.Pxf.Ast.{DatasetRow, DatasetDirective, Directive, Document}
use protowire_rust.Pxf.Limits.{Limits}
use protowire_rust.Pxf.Lexer.Cursor.{Outcome, returns, panics, stuck, ◌>>=◌}
use protowire_rust.Pxf.Parser.Directives.{slice}
use protowire_rust.Pxf.Parser.Document.{parse_row, parse_with_limits}
use protowire_rust.Pxf.Parser.State
use protowire_rust.Pxf.Dataset.Scan.{
  StreamError, row_not_utf8, row_not_ended, row_too_large, read_error, header_not_utf8, no_dataset,
  header_too_large, parse_failed, Streamed, FindRow, found, done, need_more, in_row, find_next_row,
  scan_header_end,
}
use protowire_rust.Pxf.Dataset.Scan

abbrev pub header_max_bytes_default : ℕ
header_max_bytes_default = 64 * 1024

abbrev pub stream_pull_size : ℕ
stream_pull_size = 4096

-- What a `read` answers: the bytes that it puts in the buffer, of which none are the end; a call that
-- was interrupted; or an error with its text.
pub data Answer : Type 0 where
  got : List ℕ → Answer
  interrupted : Answer
  failed : List ℕ → Answer

-- An `io::Read`: a state, and `read` into a buffer of a size.
pub record Source : Type 1 where
  pub State : Type 0
  pub read : ℕ → State → Answer × State

pub record DatasetReader (source : Source) : Type 0 where
  pub src : source.State
  pub pending : List ℕ
  pub src_eof : Bool
  pub finished : Bool
  pub error : Option StreamError
  pub type_name : List ℕ
  pub columns : List (List ℕ)
  pub directives : List Directive
  pub limits : Limits

-- What `next_row` answers: a row, an error, or the end of the rows.
pub data NextRow : Type 0 where
  row : DatasetRow → NextRow
  refused : StreamError → NextRow
  ended : NextRow

module _ {source : Source} where
  -- The `match` of `pull`: the error of the source, if any.
  unfoldable pub take_answer :
      (DatasetReader source → Outcome (Option StreamError × DatasetReader source))
      → Answer × source.State
      → DatasetReader source
      → Outcome (Option StreamError × DatasetReader source)
  take_answer again (got [], src) r = returns (none, record r { src = src; src_eof = true })
  take_answer again (got (b ∷ bs), src) r =
      returns (none, record r { src = src; pending = r.pending ++ (b ∷ bs) })
  take_answer again (interrupted, src) r = again (record r { src = src })
  take_answer again (failed text, src) r = returns (some (read_error text), record r { src = src })

  -- An interrupted call is made again.
  unfoldable pub pull :
      (tries n : ℕ) → DatasetReader source → Outcome (Option StreamError × DatasetReader source)
  unfolding take_answer
  pull zero n r = stuck
  pull (suc tries) n r = elim r.src_eof [
    | true ↦ returns (none, r)
    | false ↦ take_answer (pull tries n) (source.read n r.src) r
  ]

  -- A sticky error.
  abbrev pub refuse : StreamError → DatasetReader source → NextRow × DatasetReader source
  refuse e r = (refused e, record r { error = some e })

  abbrev pub finish : DatasetReader source → NextRow × DatasetReader source
  finish r = (ended, record r { finished = true })

  -- What comes of the bytes of a row, which are UTF-8 or not, at the reader behind them.
  unfoldable pub row_parsed :
      (utf8 : Bool)
      → State.Result DatasetRow
      → DatasetReader source
      → Outcome (NextRow × DatasetReader source)
  row_parsed false parsed r = returns (refuse row_not_utf8 r)
  row_parsed true (State.ok cells) r = returns (row cells, r)
  row_parsed true (State.err pos reason) r = returns (refuse (parse_failed pos reason) r)
  row_parsed true State.panics r = panics
  row_parsed true State.stuck r = stuck

  -- Lines 142 to 153, at the row that is found.
  unfoldable pub take_row :
      (start stop : ℕ) → DatasetReader source → Outcome (NextRow × DatasetReader source)
  unfolding parse_row row_parsed
  take_row start stop r =
      let text = slice r.pending start (stop + 1) in
      row_parsed (is_utf8 text) (parse_row text (length r.columns) r.limits)
        (record r { pending = drop (stop + 1) r.pending })

  -- Lines 159 to 173: no more bytes come.
  abbrev pub at_end : (inside : Bool) → DatasetReader source → NextRow × DatasetReader source
  at_end inside r = if inside then refuse row_not_ended r else finish r

  -- Lines 159 to 188: more bytes, and then the loop again.
  unfoldable pub refill :
      (tries : ℕ)
      → (DatasetReader source → Outcome (NextRow × DatasetReader source))
      → (inside : Bool) → DatasetReader source
      → Outcome (NextRow × DatasetReader source)
  unfolding pull
  refill tries again inside r = elim r.src_eof [
    | true ↦ returns (at_end inside r)
    | false ↦ elim (leb r.limits.max_message_size (length r.pending)) [
      | true ↦ returns (refuse (row_too_large r.limits.max_message_size) r)
      | false ↦ pull tries stream_pull_size r >>= λ (e, r'). elim e [
        | some why ↦ returns (refuse why r')
        | none ↦ again r'
      ]
    ]
  ]

  -- Each round but the last takes bytes from the source, or finds its end.
  unfoldable pub row_loop :
      (tries fuel : ℕ) → DatasetReader source → Outcome (NextRow × DatasetReader source)
  unfolding find_next_row take_row refill
  row_loop tries zero r = stuck
  row_loop tries (suc fuel) r = elim (find_next_row r.pending) [
    | Scan.err e ↦ returns (refuse e r)
    | Scan.ok f ↦ elim f [
      | found start stop ↦ take_row start stop r
      | done ↦ returns (finish r)
      | need_more ↦ refill tries (row_loop tries fuel) false r
      | in_row ↦ refill tries (row_loop tries fuel) true r
    ]
  ]

  unfoldable pub next_row :
      (tries fuel : ℕ) → DatasetReader source → Outcome (NextRow × DatasetReader source)
  unfolding row_loop
  next_row tries fuel r = elim r.error [
    | some e ↦ returns (refused e, r)
    | none ↦ elim r.finished [ true ↦ returns (ended, r) | false ↦ row_loop tries fuel r ]
  ]

  -- What the reader takes from the datasets and directives of the header.
  unfoldable pub header_taken :
      List DatasetDirective
      → List Directive
      → (stop : ℕ) → DatasetReader source
      → Outcome (Option StreamError × DatasetReader source)
  header_taken [] directives stop r = returns (some no_dataset, r)
  header_taken (tbl ∷ others) directives stop r = returns (
    none,
    record r {
      type_name = tbl.type_name;
      columns = tbl.columns;
      directives = directives;
      pending = drop (stop + 1) r.pending;
    },
  )

  -- What comes of the bytes of a header, which are UTF-8 or not.
  unfoldable pub header_parsed :
      (utf8 : Bool)
      → State.Result Document
      → (stop : ℕ) → DatasetReader source
      → Outcome (Option StreamError × DatasetReader source)
  unfolding header_taken
  header_parsed false parsed stop r = returns (some header_not_utf8, r)
  header_parsed true (State.ok doc) stop r = header_taken doc.datasets doc.directives stop r
  header_parsed true (State.err pos reason) stop r = returns (some (parse_failed pos reason), r)
  header_parsed true State.panics stop r = panics
  header_parsed true State.stuck stop r = stuck

  -- Lines 262 to 289, at the end of the header.
  unfoldable pub take_header :
      ℕ → DatasetReader source → Outcome (Option StreamError × DatasetReader source)
  unfolding parse_with_limits header_parsed
  take_header stop r =
      let text = take (stop + 1) r.pending in
      header_parsed (is_utf8 text) (parse_with_limits text r.limits) stop r

  unfoldable pub header_loop :
      (tries fuel : ℕ) → DatasetReader source → Outcome (Option StreamError × DatasetReader source)
  unfolding scan_header_end take_header pull
  header_loop tries zero r = stuck
  header_loop tries (suc fuel) r = elim (scan_header_end r.pending) [
    | Scan.err e ↦ returns (some e, r)
    | Scan.ok o ↦ elim o [
      | some stop ↦ take_header stop r
      | none ↦ elim r.src_eof [
        | true ↦ returns (some no_dataset, r)
        | false ↦ elim (leb header_max_bytes_default (length r.pending)) [
          | true ↦ returns (some header_too_large, r)
          | false ↦ pull tries stream_pull_size r >>= λ (e, r'). elim e [
            | some why ↦ returns (some why, r')
            | none ↦ header_loop tries fuel r'
          ]
        ]
      ]
    ]
  ]

  abbrev pub unread : source.State → Limits → DatasetReader source
  unread src limits = record {
    src = src;
    pending = [];
    src_eof = false;
    finished = false;
    error = none;
    type_name = [];
    columns = [];
    directives = [];
    limits = limits;
  }

  -- `DatasetReader::with_limits`: an error, or the reader at the first row.
  unfoldable pub with_limits :
      (tries fuel : ℕ) → source.State → Limits → Outcome (Option StreamError × DatasetReader source)
  unfolding header_loop
  with_limits tries fuel src limits = header_loop tries fuel (unread src limits)
