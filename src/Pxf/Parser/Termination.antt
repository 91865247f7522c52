-- ===== src/Pxf/Parser/Termination.antt =====
-- crates/protowire-pxf/src/parser.rs: termination of the parser.
use protowire_rust.Prelude.{
  ℕ, zero, suc, ◌-◌, ◌≤◌, List, Bool, true, false, ◌≡◌, ◌≢◌, refl, ap, arith, length, ltb,
  Bool-cases, inl, inr,
}
use protowire_rust.Pxf.Token.{Position, TokenKind}
use protowire_rust.Pxf.Limits.{Limits}
use protowire_rust.Pxf.Lexer.Cursor.{with_limits}
use protowire_rust.Pxf.Lexer.Next.{is_eof}
use protowire_rust.Pxf.Parser.Values.{parse_entry}
use protowire_rust.Pxf.Parser.Directives.{
  parse_directive, parse_dataset_directive, parse_proto_directive, parse_dataset_row, enough,
}
use protowire_rust.Pxf.Parser.Document.{
  Header, no_header, header_type, header_directive, header_dataset, header_proto, header_loop,
  entries_loop, check_standalone, parse_document, check_message_size, parse_with_limits, parse_row,
}
use protowire_rust.Pxf.Parser.State.{
  Parser, Reason, stuck, at, guard, advance, flush_comments, new, unstarted,
}
use protowire_rust.Pxf.Parser.Halts.{
  Halts, returned, failed, Option-Halts, Halts-map, Halts-ne-stuck, guard-Halts, elim-Halts,
  >>=-Halts, at-at_hand, IsUnder, IsUnder-le, advance-room, advance-IsUnder, advance-less,
  under_none, flush_comments-IsUnder,
}
use protowire_rust.Pxf.Parser.ValuesHalt.{parse_entry-Halts}
use protowire_rust.Pxf.Parser.HeadersHalt.{
  parse_directive-Halts, parse_dataset_directive-Halts, parse_proto_directive-Halts,
  parse_dataset_row-Halts,
}

module _ {s : List ℕ} {m : ℕ} (le : m ≤ suc (length s)) where
  header_type-Halts :
      (h : Header) (p : Parser)
      → at TokenKind.at_type p ≡ true
      → IsUnder s m p
      → Halts (λ r. IsUnder s (m - 1) r.1) (header_type h p)
  unfolding header_type is_eof
  header_type-Halts h p opens u = guard-Halts _ _ _ _ λ _.
      >>=-Halts (advance p) _ (advance-less u (at-at_hand TokenKind.at_type p opens refl)) λ q hq.
        guard-Halts (at TokenKind.ident q) _ _ _
          λ _. >>=-Halts (advance q) _ (advance-IsUnder hq) λ r hr. returned hr

  header_directive-Halts :
      (h : Header) (p : Parser)
      → at TokenKind.at_directive p ≡ true
      → IsUnder s m p
      → Halts (λ r. IsUnder s (m - 1) r.1) (header_directive h p)
  unfolding header_directive
  header_directive-Halts h p opens u =
      >>=-Halts (parse_directive p) _ (parse_directive-Halts p le opens u)
        λ (d, last, q) hq. returned hq

  header_dataset-Halts :
      (h : Header) (p : Parser)
      → at TokenKind.at_dataset p ≡ true
      → IsUnder s m p
      → Halts (λ r. IsUnder s (m - 1) r.1) (header_dataset h p)
  unfolding header_dataset
  header_dataset-Halts h p opens u = guard-Halts _ _ _ _ λ _.
      >>=-Halts (parse_dataset_directive p) _ (parse_dataset_directive-Halts p le opens u)
        λ (d, last, q) hq. returned hq

  header_proto-Halts :
      (h : Header) (p : Parser)
      → at TokenKind.at_proto p ≡ true
      → IsUnder s m p
      → Halts (λ r. IsUnder s (m - 1) r.1) (header_proto h p)
  unfolding header_proto
  header_proto-Halts h p opens u =
      >>=-Halts (parse_proto_directive p) _ (parse_proto_directive-Halts p opens u)
        λ (d, last, q) hq. returned hq

header_loop-Halts :
    (fuel : ℕ) (h : Header) {s : List ℕ} {m : ℕ} (p : Parser)
    → m ≤ fuel
    → m ≤ suc (length s)
    → IsUnder s m p
    → Halts (λ r. IsUnder s m r.1) (header_loop fuel h p)
unfolding header_loop
header_loop-Halts zero h p room le u = absurd (under_none (omega (arith, room)) u)
header_loop-Halts (suc fuel) h {s} {m} p room le u =
    let rest : (g : Header) (q : Parser)
        → IsUnder s (m - 1) q
        → Halts (λ r. IsUnder s m r.1) (header_loop fuel g q) =
      λ g q hq.
        Halts-map (λ r hr. IsUnder-le (omega arith) hr)
          (header_loop-Halts fuel g q (omega (arith, room)) (omega (arith, le)) hq) in
    elim-Halts (at TokenKind.at_type p) _ _
      (λ opens.
        >>=-Halts (header_type h p) _ (header_type-Halts le h p opens u) λ (h', q) hq. rest h' q hq)
      λ _.
        elim-Halts (at TokenKind.at_directive p) _ _
          (λ opens.
            >>=-Halts (header_directive h p) _ (header_directive-Halts le h p opens u)
              λ (h', q) hq. rest h' q hq)
          λ _.
            elim-Halts (at TokenKind.at_dataset p) _ _
              (λ opens.
                >>=-Halts (header_dataset h p) _ (header_dataset-Halts le h p opens u)
                  λ (h', q) hq. rest h' q hq)
              λ _.
                elim-Halts (at TokenKind.at_proto p) _ _
                  (λ opens.
                    >>=-Halts (header_proto h p) _ (header_proto-Halts le h p opens u)
                      λ (h', q) hq. rest h' q hq)
                  (λ _. returned u)

entries_loop-Halts :
    (fuel : ℕ) {s : List ℕ} {m : ℕ} (p : Parser)
    → m ≤ fuel
    → m ≤ suc (length s)
    → IsUnder s m p
    → Halts (λ r. Unit {0}) (entries_loop fuel p)
unfolding entries_loop
entries_loop-Halts zero p room le u = absurd (under_none (omega (arith, room)) u)
entries_loop-Halts (suc fuel) p room le u =
    elim-Halts (at TokenKind.eof p) _ _ (λ _. returned tt)
      λ _.
        >>=-Halts (parse_entry (enough p) false p) _
          (parse_entry-Halts (enough p) false p (omega (arith, le, ap length u.same)) u)
          λ (e, q) hq.
            >>=-Halts (entries_loop fuel q) _
              (entries_loop-Halts fuel q (omega (arith, room)) (omega (arith, le)) hq)
              λ (es, r) _. returned tt

guard_alone-Halts :
    (b : Bool) (pos : Position) (reason : Reason) → Halts (λ _. Unit {0}) (guard b pos reason)
unfolding guard
guard_alone-Halts true pos reason = returned tt
guard_alone-Halts false pos reason = failed

check_standalone-Halts : (h : Header) (p : Parser) → Halts (λ _. Unit {0}) (check_standalone h p)
check_standalone-Halts h p =
    Option-Halts h.first_dataset_pos _ _ (λ _. returned tt) λ pos _. guard_alone-Halts _ _ _

parse_document-Halts :
    {s : List ℕ} (p : Parser)
    → IsUnder s (suc (length s)) p
    → Halts (λ _. Unit {0}) (parse_document p)
unfolding parse_document
parse_document-Halts p u =
    >>=-Halts (header_loop (suc (length p.lex.input)) no_header (flush_comments p)) _
      (header_loop-Halts (suc (length p.lex.input)) no_header (flush_comments p)
        (omega (arith, ap length u.same)) (omega arith) (flush_comments-IsUnder u))
      λ (h, q) hq. >>=-Halts (check_standalone h q) _ (check_standalone-Halts h q) λ _ _.
        >>=-Halts (entries_loop (suc (length p.lex.input)) q) _
          (entries_loop-Halts (suc (length p.lex.input)) q (omega (arith, ap length u.same))
            (omega arith) hq)
          λ (es, r) _. returned tt

new-Halts :
    (input : List ℕ) (limits : Limits)
    → Halts (IsUnder input (suc (length input))) (new input limits)
unfolding new unstarted with_limits
new-Halts input limits = advance-room (unstarted input limits) refl (omega arith) (omega arith)

check_message_size-Halts :
    (limits : Limits) (len : ℕ) → Halts (λ _. Unit {0}) (check_message_size limits len)
unfolding check_message_size
check_message_size-Halts limits len = elim (Bool-cases (ltb limits.max_message_size len)) [
  | inl over ↦ rw over failed
  | inr fits ↦ rw fits (returned tt)
]

parse_with_limits-Halts :
    (input : List ℕ) (limits : Limits) → Halts (λ _. Unit {0}) (parse_with_limits input limits)
unfolding parse_with_limits
parse_with_limits-Halts input limits =
    >>=-Halts (check_message_size limits (length input)) _
      (check_message_size-Halts limits (length input))
      λ _ _. >>=-Halts (new input limits) _ (new-Halts input limits) λ p u. parse_document-Halts p u

parse_row-Halts :
    (input : List ℕ) (expected : ℕ) (limits : Limits)
    → Halts (λ _. Unit {0}) (parse_row input expected limits)
unfolding parse_row
parse_row-Halts input expected limits =
    >>=-Halts (check_message_size limits (length input)) _
      (check_message_size-Halts limits (length input))
      λ _ _. >>=-Halts (new input limits) _ (new-Halts input limits) λ p u.
        >>=-Halts (parse_dataset_row expected p) _
          (parse_dataset_row-Halts expected p u.same (omega arith) (advance-IsUnder u))
          λ (row, last, q) _. returned tt

-- Parsing a document, and parsing a row of a dataset, end with a result, an error or a panic of the
-- lexer, on every input and under any limits.
pub parse_with_limits-ne-stuck :
    (input : List ℕ) (expected : ℕ) (limits : Limits)
    → (parse_with_limits input limits ≢ stuck) × (parse_row input expected limits ≢ stuck)
parse_with_limits-ne-stuck input expected limits = (
  Halts-ne-stuck (parse_with_limits-Halts input limits),
  Halts-ne-stuck (parse_row-Halts input expected limits),
)
