-- ===== src/Pxf/Parser/Documents.antt =====
-- crates/protowire-pxf/src/parser.rs: what holds of every document that is parsed.
use protowire_rust.Prelude.{
  ℕ, zero, suc, ◌+◌, ◌≤◌, List, [], ◌∷◌, ◌++◌, Bool, true, false, not, ◌≡◌, ◌≢◌, refl, arith,
  Bool-cases, inl, inr, ◌⊎◌, Option, none, some, length, All, ltb, ltb→le,
}
use protowire_rust.Pxf.Token.{Position, Token, TokenKind}
use protowire_rust.Pxf.Ast.{Value, Document, DatasetDirective, end, entry}
use protowire_rust.Pxf.Limits.{Limits}
use protowire_rust.Pxf.Lexer.Cursor.{Lexer, snapshot, restore}
use protowire_rust.Pxf.Parser.Values.{parse_value, parse_entry}
use protowire_rust.Pxf.Parser.Nesting.{
  IsLow, Reads, entries_height, IsBody, parse_entry-Reads, parse_value-Reads, height, IsWell,
}
use protowire_rust.Pxf.Parser.Directives.{
  enough, parse_directive, parse_dataset_directive, parse_proto_directive,
}
use protowire_rust.Pxf.Parser.Headers.{
  IsDataset, parse_directive-Keeps, parse_dataset_directive-IsDataset, parse_proto_directive-Keeps,
}
use protowire_rust.Pxf.Parser.Document.{
  Header, no_header, is_some, or_else, header_type, header_directive, header_dataset, header_proto,
  header_loop, entries_loop, check_standalone, parse_document, check_message_size,
  parse_with_limits, read_value,
}
use protowire_rust.Pxf.Parser.State.{
  Parser, Result, ok, ◌>>=◌, guard, at, advance, flush_comments, new, unstarted,
  dataset_with_entries,
}
use protowire_rust.Pxf.Parser.Ensures.{
  Ensures, Ensures-map, ensured, failed, ran_out, guard-Ensures, elim-Ensures, >>=-Ensures, Keeps,
  Keeps-refl, Keeps-trans, advance-Keeps, Ensures-ok,
}

-- The variables before the entries: a type and a dataset exclude one another.
record IsHeader (limit : ℕ) (h : Header) : Type 0 where
  typed : h.saw_type ≡ false → h.type_url ≡ []
  alone : is_some h.first_dataset_pos ≡ true → h.saw_type ≡ false
  listed : is_some h.first_dataset_pos ≡ false → h.datasets ≡ []
  datasets : All (IsDataset limit) h.datasets

All-snoc :
    (limit : ℕ) (ds : List DatasetDirective) (d : DatasetDirective)
    → All (IsDataset limit) ds
    → IsDataset limit d
    → All (IsDataset limit) (ds ++ (d ∷ []))
All-snoc limit [] d hs h = (h, tt)
All-snoc limit (e ∷ ds) d hs h = (hs.0, All-snoc limit ds d hs.1 h)

is_some-or_else : (o : Option Position) (pos : Position) → is_some (or_else o pos) ≡ true
is_some-or_else none pos = refl
is_some-or_else (some first) pos = refl

not-true : (b : Bool) → not b ≡ true → b ≡ false
not-true true h = cc
not-true false h = refl

abbrev Goes : Parser → Header × Parser → Type 0
Goes p r = IsHeader p.limits.max_nesting_depth r.0 × Keeps p r.1

module _ {p : Parser} (low : IsLow p) {h : Header} (head : IsHeader p.limits.max_nesting_depth h)
    {q : Parser} (kept : Keeps p q) where
  header_type-IsHeader : Ensures (Goes p) (header_type h q)
  unfolding header_type
  header_type-IsHeader = guard-Ensures _ _ _ _ λ no_dataset.
      >>=-Ensures (advance q) _ (advance-Keeps kept) λ r hr. guard-Ensures _ _ _ _ λ _.
        >>=-Ensures (advance r) _ (advance-Keeps hr) λ s hs. ensured (
          record {
            typed = λ e. cc e;
            alone = λ e. cc (not-true (is_some h.first_dataset_pos) no_dataset, e);
            listed = head.listed;
            datasets = head.datasets;
          },
          hs,
        )

  header_directive-IsHeader : Ensures (Goes p) (header_directive h q)
  unfolding header_directive
  header_directive-IsHeader =
      >>=-Ensures (parse_directive q) _ (parse_directive-Keeps low kept) λ (d, end_offset, r) hr.
        ensured (
          record {
            typed = head.typed;
            alone = head.alone;
            listed = head.listed;
            datasets = head.datasets;
          },
          hr,
        )

  header_proto-IsHeader : Ensures (Goes p) (header_proto h q)
  unfolding header_proto
  header_proto-IsHeader =
      >>=-Ensures (parse_proto_directive q) _ (parse_proto_directive-Keeps low kept)
        λ (d, end_offset, r) hr. ensured (
          record {
            typed = head.typed;
            alone = head.alone;
            listed = head.listed;
            datasets = head.datasets;
          },
          hr,
        )

  header_dataset-IsHeader : Ensures (Goes p) (header_dataset h q)
  unfolding header_dataset
  header_dataset-IsHeader = guard-Ensures _ _ _ _ λ no_type.
      >>=-Ensures (parse_dataset_directive q) _ (parse_dataset_directive-IsDataset low kept)
        λ (d, end_offset, r) hr. ensured (
          record {
            typed = head.typed;
            alone = λ _. not-true h.saw_type no_type;
            listed = λ e. cc (is_some-or_else h.first_dataset_pos d.pos, e);
            datasets = All-snoc p.limits.max_nesting_depth h.datasets d head.datasets hr.0;
          },
          hr.1,
        )

header_loop-IsHeader :
    (fuel : ℕ) {p : Parser} {h : Header} {q : Parser}
    → IsLow p
    → IsHeader p.limits.max_nesting_depth h
    → Keeps p q
    → Ensures (Goes p) (header_loop fuel h q)
unfolding header_loop
header_loop-IsHeader zero low head kept = ran_out
header_loop-IsHeader (suc fuel) {p} {h} {q} low head kept =
    let onward : (m : Result (Header × Parser))
        → Ensures (Goes p) m
        → Ensures (Goes p) (m >>= λ (h', r). header_loop fuel h' r) =
      λ m hm.
        >>=-Ensures {P = Goes p} m _ hm λ (h', r) hr. header_loop-IsHeader fuel low hr.0 hr.1 in
    elim-Ensures (at TokenKind.at_type q) _ _
      (λ _. onward (header_type h q) (header_type-IsHeader low head kept))
      λ _.
        elim-Ensures (at TokenKind.at_directive q) _ _
          (λ _. onward (header_directive h q) (header_directive-IsHeader low head kept))
          λ _.
            elim-Ensures (at TokenKind.at_dataset q) _ _
              (λ _. onward (header_dataset h q) (header_dataset-IsHeader low head kept))
              λ _.
                elim-Ensures (at TokenKind.at_proto q) _ _
                  (λ _. onward (header_proto h q) (header_proto-IsHeader low head kept))
                  λ _. ensured (head, kept)

entries_loop-Reads :
    (fuel : ℕ) (p : Parser)
    → IsLow p
    → Ensures (Reads entries_height (IsBody false false) p) (entries_loop fuel p)
unfolding entries_loop
entries_loop-Reads zero p low = ran_out
entries_loop-Reads (suc fuel) p low =
    elim-Ensures (at TokenKind.eof p) _ _
      (λ _.
        ensured {a = (end, p)}
          (record { nested = omega (arith, low); good = tt; keeps = Keeps-refl p }))
      λ _.
        >>=-Ensures (parse_entry (enough p) false p) _
          (parse_entry-Reads (enough p) false false p low)
          λ (x, q) hx.
            >>=-Ensures (entries_loop fuel q) _
              (entries_loop-Reads fuel q (omega (arith, low, hx.keeps.depth, hx.keeps.limit)))
              λ (es, r) hr. ensured {a = (entry x es, r)} (record {
                nested = omega (arith, hx.nested, hr.nested, hx.keeps.depth, hx.keeps.limit);
                good = (hx.good, hr.good);
                keeps = Keeps-trans hx.keeps hr.keeps;
              })

-- What holds of a document that is parsed at the depth 0 under a limit on its nesting.
pub record IsDocument (limit : ℕ) (d : Document) : Type 0 where
  pub nested : entries_height d.entries ≤ limit
  pub placed : IsBody false false d.entries
  pub datasets : All (IsDataset limit) d.datasets
  pub alone : d.datasets ≢ [] → (d.entries ≡ end) × (d.type_url ≡ [])

-- At the end of the input there are no entries.
entries_loop-eof :
    (fuel : ℕ) (p : Parser) → at TokenKind.eof p ≡ true → entries_loop (suc fuel) p ≡ ok (end, p)
unfolding entries_loop
entries_loop-eof fuel p e = rw (e, entries_loop) refl

entries_loop-end :
    (n : ℕ) (p : Parser)
    → IsLow p
    → Ensures
        (λ r.
          Reads entries_height (IsBody false false) p r × (at TokenKind.eof p ≡ true → r.0 ≡ end))
        (entries_loop (suc n) p)
entries_loop-end n p low = elim (Bool-cases (at TokenKind.eof p)) [
  | inl e ↦
      rw (entries_loop-eof n p e) (
        ensured
          (record { nested = omega (arith, low); good = tt; keeps = Keeps-refl p }, λ _. refl))
  | inr more ↦ Ensures-map (λ r h. (h, λ e. cc (more, e))) (entries_loop-Reads (suc n) p low)
]

check_standalone-stands :
    (o : Option Position) (b : Bool)
    → Ensures
        (λ _. (is_some o ≡ false) ⊎ (b ≡ true))
        (elim o [ none ↦ ok tt | some pos ↦ guard b pos dataset_with_entries ])
unfolding guard
check_standalone-stands none b = ensured (inl refl)
check_standalone-stands (some pos) true = ensured (inr refl)
check_standalone-stands (some pos) false = failed

parse_document-IsDocument :
    (p : Parser) → p.depth ≡ 0 → Ensures (IsDocument p.limits.max_nesting_depth) (parse_document p)
unfolding parse_document
parse_document-IsDocument p root =
    let start = flush_comments p in
    let low : IsLow start = omega (arith, root) in
    >>=-Ensures (header_loop (suc (length p.lex.input)) no_header start) _
      (header_loop-IsHeader (suc (length p.lex.input)) low
        (record { typed = λ _. refl; alone = λ _. refl; listed = λ _. refl; datasets = tt })
        (Keeps-refl start))
      λ (h, q) hq.
        >>=-Ensures (check_standalone h q) _
          (check_standalone-stands h.first_dataset_pos (at TokenKind.eof q))
          λ _ stands.
            let below : IsLow q = omega (arith, low, hq.1.depth, hq.1.limit) in
            >>=-Ensures (entries_loop (suc (length p.lex.input)) q) _
              (entries_loop-end (length p.lex.input) q below)
              λ (es, r) hr. ensured (record {
                nested = omega (arith, hr.0.nested, hq.1.limit);
                placed = hr.0.good;
                datasets = hq.0.datasets;
                alone = λ some_dataset. elim (Bool-cases (is_some h.first_dataset_pos)) [
                  | inr none_yet ↦ absurd (some_dataset (hq.0.listed none_yet))
                  | inl dataset ↦ (
                    elim stands [ inl none_yet ↦ cc (dataset, none_yet) | inr eof ↦ hr.1 eof ],
                    hq.0.typed (hq.0.alone dataset),
                  )
                ];
              })

new-root :
    (input : List ℕ) (limits : Limits)
    → Ensures
        (λ p. (p.depth ≡ 0) × (p.limits.max_nesting_depth ≡ limits.max_nesting_depth))
        (new input limits)
unfolding new unstarted
new-root input limits =
    Ensures-map (λ p h. (h.depth, h.limit)) (advance-Keeps (Keeps-refl (unstarted input limits)))

check_message_size-le :
    (limits : Limits) (n : ℕ)
    → Ensures (λ _. n ≤ limits.max_message_size) (check_message_size limits n)
unfolding check_message_size
check_message_size-le limits n = elim (Bool-cases (ltb limits.max_message_size n)) [
  | inl large ↦ rw large failed
  | inr fits ↦ rw fits (ensured (ltb→le _ _ fits))
]

parsed-IsDocument :
    (input : List ℕ) (limits : Limits)
    → Ensures
        (λ d. IsDocument limits.max_nesting_depth d × (length input ≤ limits.max_message_size))
        (parse_with_limits input limits)
unfolding parse_with_limits
parsed-IsDocument input limits =
    >>=-Ensures (check_message_size limits (length input)) _
      (check_message_size-le limits (length input))
      λ _ fits.
        >>=-Ensures (new input limits) _ (new-root input limits)
          λ p root. Ensures-map (λ d h. (rw root.1 at h, fits)) (parse_document-IsDocument p root.0)

-- Every document that is parsed is within the size limit. Its entries nest no deeper than the nesting
-- limit, and so does the value of every cell of its datasets; in both, map entries and type entries
-- stand only where they may. Every dataset has columns that meet the rules on columns, and rows with as
-- many cells; and beside a dataset there is neither a type nor an entry.
pub parse_with_limits-IsDocument :
    (input : List ℕ) (limits : Limits) (d : Document)
    → parse_with_limits input limits ≡ ok d
    → IsDocument limits.max_nesting_depth d × (length input ≤ limits.max_message_size)
parse_with_limits-IsDocument input limits d parsed =
    Ensures-ok (rw parsed at (parsed-IsDocument input limits))

-- A value that a decoder lets the parser read, at a depth within the limit, nests no deeper than the
-- limit admits there, and has type entries only where they may stand.
pub read_value_nested :
    (lex : Lexer) (current : Token) (depth : ℕ) (limits : Limits) (v : Value) (after : Lexer)
    (next : Token)
    → depth ≤ limits.max_nesting_depth
    → read_value lex current depth limits ≡ ok (v, after, next)
    → (height v + depth ≤ limits.max_nesting_depth) × IsWell v
unfolding read_value
read_value_nested lex current depth limits v after next low parsed =
    let p : Parser = record {
      lex = lex;
      current = current;
      pending = [];
      depth = depth;
      limits = limits;
    } in
    Ensures-ok (rw parsed at (nested p low))
  where
    nested :
        (p : Parser)
        → IsLow p
        → Ensures {A = Value × Lexer × Token}
            (λ r. (height r.0 + p.depth ≤ p.limits.max_nesting_depth) × IsWell r.0)
            (parse_value (enough p) p >>= λ (v, q).
              ok (v, restore (snapshot q.lex) p.lex, q.current))
    nested p low =
        >>=-Ensures (parse_value (enough p) p) _ (parse_value-Reads (enough p) p low)
          λ (v, q) h. ensured (h.nested, h.good)
