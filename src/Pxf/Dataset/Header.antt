-- ===== src/Pxf/Dataset/Header.antt =====
-- crates/protowire-pxf/src/dataset_reader.rs, `read_header`: what a reader that has the header at
-- hand takes from it, and the header that stands in the text as a whole.
use protowire_rust.Prelude.{
  ℕ, ◌+◌, ◌<◌, List, [], ◌∷◌, Bool, true, false, Option, none, some, ◌≡◌, ◌≢◌, refl, sym, subst,
  arith, length, take, drop,
}
use protowire_rust.Wire.Utf8.{is_utf8}
use protowire_rust.Pxf.Ast.{DatasetDirective, Directive, Document}
use protowire_rust.Pxf.Limits.{Limits}
use protowire_rust.Pxf.Lexer.Cursor.{Outcome, returns, panics, stuck}
use protowire_rust.Pxf.Parser.Document.{parse_with_limits}
use protowire_rust.Pxf.Parser.State
use protowire_rust.Pxf.Parser.Termination.{parse_with_limits-ne-stuck}
use protowire_rust.Pxf.Dataset.Scan.{
  StreamError, header_not_utf8, no_dataset, parse_failed, Streamed, scan_header_end,
}
use protowire_rust.Pxf.Dataset.Scan
use protowire_rust.Pxf.Dataset.Reader.{
  Source, DatasetReader, header_taken, header_parsed, take_header,
}
use protowire_rust.Pxf.Dataset.Delivers.{Delivers, text}
use protowire_rust.Pxf.Dataset.Rows.{take-within, drop-within}

-- The header of a text that is all at hand, and the text behind it.
pub data HeaderRead : Type 0 where
  no_header : StreamError → HeaderRead
  header :
      (type_name : List ℕ) (columns : List (List ℕ)) → List Directive → (rest : List ℕ) → HeaderRead

unfoldable pub taken : List DatasetDirective → List Directive → List ℕ → Outcome HeaderRead
taken [] directives rest = returns (no_header no_dataset)
taken (tbl ∷ others) directives rest = returns (header tbl.type_name tbl.columns directives rest)

unfoldable pub parsed : (utf8 : Bool) → State.Result Document → List ℕ → Outcome HeaderRead
unfolding taken
parsed false x rest = returns (no_header header_not_utf8)
parsed true (State.ok doc) rest = taken doc.datasets doc.directives rest
parsed true (State.err pos reason) rest = returns (no_header (parse_failed pos reason))
parsed true State.panics rest = panics
parsed true State.stuck rest = stuck

unfoldable pub cut_header : Limits → (stop : ℕ) → List ℕ → Outcome HeaderRead
unfolding parse_with_limits parsed
cut_header limits stop input =
    let cut = take (stop + 1) input in
    parsed (is_utf8 cut) (parse_with_limits cut limits) (drop (stop + 1) input)

unfoldable pub header_of_text : Limits → List ℕ → Outcome HeaderRead
unfolding scan_header_end cut_header
header_of_text limits input = elim (scan_header_end input) [
  | Scan.err e ↦ returns (no_header e)
  | Scan.ok o ↦ elim o [
    | none ↦ returns (no_header no_dataset)
    | some stop ↦ cut_header limits stop input
  ]
]

-- A reader at its first row, with what it has taken from the header.
pub record AtRows {source : Source} {tries : ℕ} (d : Delivers source tries)
    (r r' : DatasetReader source) (type_name : List ℕ) (columns : List (List ℕ))
    (directives : List Directive) (rest : List ℕ) : Type 0 where
  pub same_type : r'.type_name ≡ type_name
  pub same_columns : r'.columns ≡ columns
  pub same_directives : r'.directives ≡ directives
  pub same_rest : text d r' ≡ rest
  pub same_limits : r'.limits ≡ r.limits
  pub no_more : r'.src_eof ≡ true → d.left r'.src ≡ []
  pub no_error : r'.error ≡ r.error
  pub not_finished : r'.finished ≡ r.finished

-- A reader agrees with a text when both have the same header, or the same error, or when both panic.
pub data Opens {source : Source} {tries : ℕ} (d : Delivers source tries) (r : DatasetReader source)
    : Outcome (Option StreamError × DatasetReader source) → Outcome HeaderRead → Type 0 where
  refuses_same :
      {e : StreamError} {r' : DatasetReader source}
      → Opens d r (returns (some e, r')) (returns (no_header e))
  opens_same :
      {r' : DatasetReader source} {type_name : List ℕ} {columns : List (List ℕ)}
      {directives : List Directive} {rest : List ℕ}
      → AtRows d r r' type_name columns directives rest
      → Opens d r (returns (none, r')) (returns (header type_name columns directives rest))
  both_panic : Opens d r panics panics

module _ {source : Source} {tries : ℕ} (d : Delivers source tries) where
  header_taken-Opens :
      (tables : List DatasetDirective) (directives : List Directive) (stop : ℕ)
      (r : DatasetReader source)
      → stop < length r.pending
      → (r.src_eof ≡ true → d.left r.src ≡ [])
      → Opens d r
          (header_taken tables directives stop r)
          (taken tables directives (drop (stop + 1) (text d r)))
  unfolding header_taken taken
  header_taken-Opens [] directives stop r h ends = refuses_same
  header_taken-Opens (tbl ∷ others) directives stop r h ends = opens_same (record {
    same_type = refl;
    same_columns = refl;
    same_directives = refl;
    same_rest = sym (drop-within (stop + 1) r.pending (d.left r.src) (omega (arith, h)));
    same_limits = refl;
    no_more = ends;
    no_error = refl;
    not_finished = refl;
  })

  header_parsed-Opens :
      (utf8 : Bool) (x : State.Result Document) (stop : ℕ) (r : DatasetReader source)
      → x ≢ State.stuck
      → stop < length r.pending
      → (r.src_eof ≡ true → d.left r.src ≡ [])
      → Opens d r (header_parsed utf8 x stop r) (parsed utf8 x (drop (stop + 1) (text d r)))
  unfolding header_parsed parsed
  header_parsed-Opens false x stop r never h ends = refuses_same
  header_parsed-Opens true (State.ok doc) stop r never h ends =
      header_taken-Opens doc.datasets doc.directives stop r h ends
  header_parsed-Opens true (State.err pos reason) stop r never h ends = refuses_same
  header_parsed-Opens true State.panics stop r never h ends = both_panic
  header_parsed-Opens true State.stuck stop r never h ends = absurd (never refl)

  pub take_header-Opens :
      (stop : ℕ) (r : DatasetReader source)
      → stop < length r.pending
      → (r.src_eof ≡ true → d.left r.src ≡ [])
      → Opens d r (take_header stop r) (cut_header r.limits stop (text d r))
  unfolding take_header cut_header
  take_header-Opens stop r h ends =
      let cut = take (stop + 1) r.pending in
      subst
        (λ t.
          Opens d r (take_header stop r)
            (parsed (is_utf8 t) (parse_with_limits t r.limits) (drop (stop + 1) (text d r))))
        (sym (take-within (stop + 1) r.pending (d.left r.src) (omega (arith, h))))
        (header_parsed-Opens (is_utf8 cut) (parse_with_limits cut r.limits) stop r
          (parse_with_limits-ne-stuck cut 0 r.limits).0 h ends)
