-- ===== src/Pxf/Dataset/Opening.antt =====
-- crates/protowire-pxf/src/dataset_reader.rs, `with_limits`: the header that it reads over a source in
-- pieces, against the header that stands in the text as a whole.
use protowire_rust.Prelude.{
  ℕ, zero, suc, ◌+◌, ◌<◌, [], ◌++◌, true, false, Option, none, some, ◌≡◌, ◌≢◌, refl, sym, ap, ◌∙◌,
  subst, arith, leb, length, elim-cases, length-append, append-nil,
}
use mathlib.Core.Path.{ap₂}
use protowire_rust.Pxf.Limits.{Limits}
use protowire_rust.Pxf.Lexer.Cursor.{Outcome, returns, panics, stuck, ◌>>=◌}
use protowire_rust.Pxf.Dataset.Scan.{
  StreamError, header_not_utf8, header_too_large, no_dataset, parse_failed, Streamed,
  scan_header_end,
}
use protowire_rust.Pxf.Dataset.Scan
use protowire_rust.Pxf.Dataset.FoundHeader.{scan_header_end-stays}
use protowire_rust.Pxf.Dataset.Inside.{header_inside}
use protowire_rust.Pxf.Dataset.Reader.{
  Source, DatasetReader, header_loop, with_limits, unread, header_max_bytes_default,
  stream_pull_size, pull,
}
use protowire_rust.Pxf.Dataset.Delivers.{
  Returned, returned, Delivers, text, measure, Follows, Pulled, pull-Returned,
}
use protowire_rust.Pxf.Dataset.Header.{
  HeaderRead, header_of_text, Opens, refuses_same, opens_same, both_panic, take_header-Opens,
}

module _ {source : Source} {tries : ℕ} (d : Delivers source tries) where
  further_on :
      {r r' : DatasetReader source} {m : Outcome (Option StreamError × DatasetReader source)}
      {o : Outcome HeaderRead}
      → r'.limits ≡ r.limits
      → r'.error ≡ r.error
      → r'.finished ≡ r.finished
      → Opens d r' m o
      → Opens d r m o
  further_on e f g refuses_same = refuses_same
  further_on e f g (opens_same a) = opens_same (record {
    same_type = a.same_type;
    same_columns = a.same_columns;
    same_directives = a.same_directives;
    same_rest = a.same_rest;
    same_limits = a.same_limits ∙ e;
    no_more = a.no_more;
    no_error = a.no_error ∙ f;
    not_finished = a.not_finished ∙ g;
  })
  further_on e f g both_panic = both_panic

  pulled :
      (again : DatasetReader source → Outcome (Option StreamError × DatasetReader source))
      (r : DatasetReader source) (m : Outcome (Option StreamError × DatasetReader source))
      (o : Outcome HeaderRead)
      → Returned (Pulled d r) m
      → ((r' : DatasetReader source)
          → text d r' ≡ text d r
          → Follows d r r'
          → measure d r' < measure d r
          → Opens d r' (again r') o)
      → Opens d r
          (m >>= λ (e, r'). elim e [ some why ↦ returns (some why, r') | none ↦ again r' ])
          o
  pulled again r (returns (none, r')) o (returned h) next =
      further_on h.follows.limits h.error_kept h.finished_kept (next r' h.same h.follows h.less)
  pulled again r (returns (some why, r')) o (returned h) next = absurd (ground (arith, h.no_error))
  pulled again r panics o h next = elim h [ ]
  pulled again r stuck o h next = elim h [ ]

  pulls_header :
      (again : DatasetReader source → Outcome (Option StreamError × DatasetReader source))
      (r : DatasetReader source) (o : Outcome HeaderRead)
      → length (text d r) < header_max_bytes_default
      → (r.src_eof ≡ true → Opens d r (returns (some no_dataset, r)) o)
      → ((r' : DatasetReader source)
          → text d r' ≡ text d r
          → Follows d r r'
          → measure d r' < measure d r
          → Opens d r' (again r') o)
      → Opens d r
          (elim r.src_eof [
            | true ↦ returns (some no_dataset, r)
            | false ↦ elim (leb header_max_bytes_default (length r.pending)) [
              | true ↦ returns (some header_too_large, r)
              | false ↦ pull tries stream_pull_size r >>= λ (e, r'). elim e [
                | some why ↦ returns (some why, r')
                | none ↦ again r'
              ]
            ]
          ])
          o
  pulls_header again r o small ended next =
      elim-cases (λ m. Opens d r m o) r.src_eof _ _ ended
        λ open_.
          elim-cases (λ m. Opens d r m o) (leb header_max_bytes_default (length r.pending)) _ _
            (λ full. absurd (ground (arith, full, small, length-append r.pending (d.left r.src))))
            (λ _.
              pulled again r (pull tries stream_pull_size r) o
                (pull-Returned d tries stream_pull_size r (omega arith) open_ (d.patient r.src))
                next)

  nothing_more :
      (r : DatasetReader source)
      → scan_header_end r.pending ≡ Scan.ok none
      → d.left r.src ≡ []
      → Opens d r (returns (some no_dataset, r)) (header_of_text r.limits (text d r))
  unfolding header_of_text
  nothing_more r here none_left =
      let whole : text d r ≡ r.pending =
        ap (λ t. r.pending ++ t) none_left ∙ append-nil r.pending in
      subst (λ t. Opens d r (returns (some no_dataset, r)) (header_of_text r.limits t)) (sym whole)
        (rw (here, header_of_text) refuses_same)

  -- One round, by what the scan of the bytes at hand gives.
  header_round :
      (x : Streamed (Option ℕ)) (fuel : ℕ) (r : DatasetReader source)
      → scan_header_end r.pending ≡ x
      → (x ≢ Scan.ok none → scan_header_end (text d r) ≡ x)
      → (r.src_eof ≡ true → d.left r.src ≡ [])
      → length (text d r) < header_max_bytes_default
      → ((r' : DatasetReader source)
          → text d r' ≡ text d r
          → Follows d r r'
          → measure d r' < measure d r
          → Opens d r' (header_loop tries fuel r') (header_of_text r.limits (text d r)))
      → Opens d r (header_loop tries (suc fuel) r) (header_of_text r.limits (text d r))
  unfolding header_loop header_of_text
  header_round (Scan.err e) fuel r here there ends small next =
      rw (here, header_loop) (rw (there (λ k. cc), header_of_text) refuses_same)
  header_round (Scan.ok (some stop)) fuel r here there ends small next =
      rw (here, header_loop)
        (rw (there (λ k. cc), header_of_text)
          (take_header-Opens d stop r (header_inside r.pending stop here) ends))
  header_round (Scan.ok none) fuel r here there ends small next =
      rw (here, header_loop)
        (pulls_header (header_loop tries fuel) r (header_of_text r.limits (text d r)) small
          (λ eof. nothing_more r here (ends eof)) next)

  header_loop-Opens :
      (fuel : ℕ) (r : DatasetReader source)
      → (r.src_eof ≡ true → d.left r.src ≡ [])
      → length (text d r) < header_max_bytes_default
      → measure d r < fuel
      → Opens d r (header_loop tries fuel r) (header_of_text r.limits (text d r))
  header_loop-Opens zero r ends small room = absurd (omega (arith, room))
  header_loop-Opens (suc fuel) r ends small room =
      header_round (scan_header_end r.pending) fuel r refl
        (λ k. scan_header_end-stays r.pending (d.left r.src) k) ends small
        λ r' same f less.
          subst (λ t. Opens d r' (header_loop tries fuel r') t) (ap₂ header_of_text f.limits same)
            (header_loop-Opens fuel r' f.at_end (omega (arith, ap length same, small))
              (omega (arith, less, room)))

  -- Over a source that delivers its bytes in pieces of any size, and is interrupted fewer than `tries`
  -- times in a row, with_limits answers with the header of the text as a whole, or with its error: the
  -- reader that it gives has the type, the columns and the directives of the header, has neither failed
  -- nor finished, and has the text behind the header left. The text is smaller than 64 KiB, and the fuel
  -- is more than the bytes of the text and one more.
  pub with_limits-Opens :
      (fuel : ℕ) (src : source.State) (limits : Limits)
      → length (d.left src) < header_max_bytes_default
      → length (d.left src) + 1 < fuel
      → Opens d
          (unread src limits)
          (with_limits tries fuel src limits)
          (header_of_text limits (d.left src))
  unfolding with_limits
  with_limits-Opens fuel src limits small room =
      header_loop-Opens fuel (unread src limits) (λ e. absurd (ground (arith, e))) small
        (omega (arith, room))
