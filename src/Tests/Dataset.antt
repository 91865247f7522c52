-- ===== src/Tests/Dataset.antt =====
-- The streaming reader of a dataset on small inputs, and its theorems at concrete inputs.
use protowire_rust.Prelude.{
  ℕ, List, [], ◌∷◌, ◌++◌, Bool, true, false, codes, some, ◌⊎◌, ◌≡◌, refl, arith, ◌<◌,
}
use protowire_rust.Pxf.Limits.{Limits}
use protowire_rust.Pxf.Limits
use protowire_rust.Pxf.Lexer.Cursor.{Outcome, returns, panics, stuck}
use protowire_rust.Pxf.Parser.State.{guard}
use protowire_rust.Pxf.Dataset.Reader.{
  Source, Answer, got, interrupted, DatasetReader, NextRow, row, refused, ended, next_row, unread,
  with_limits,
}
use protowire_rust.Pxf.Dataset.Delivers.{Delivers, IsNext, next, wait}
use protowire_rust.Pxf.Dataset.Rows.{row_of_text, Agrees}
use protowire_rust.Pxf.Dataset.Refines.{next_row-Agrees}
use protowire_rust.Pxf.Dataset.Sticky.{next_row_again}
use protowire_rust.Pxf.Dataset.Found.{EndsOpen, find_next_row-stays}
use protowire_rust.Pxf.Dataset.Header.{Opens, header_of_text}
use protowire_rust.Pxf.Dataset.Opening.{with_limits-Opens}
use protowire_rust.Pxf.Dataset.Scan.{entries_beside_rows, find_next_row}
use protowire_rust.Pxf.Dataset.Scan
use protowire_rust.Wire.Utf8.{utf8_loop}
use protowire_rust.Pxf.Lexer.Next.{next_token}

-- A source that gives one byte at a time, and is interrupted before each.
abbrev drip_read : ℕ → Bool × List ℕ → Answer × (Bool × List ℕ)
drip_read n (true, bytes) = (interrupted, (false, bytes))
drip_read n (false, []) = (got [], (false, []))
drip_read n (false, b ∷ bs) = (got (b ∷ []), (true, bs))

abbrev drip : Source
drip = record { State = Bool × List ℕ; read = drip_read }

abbrev drip_waits : Bool × List ℕ → ℕ
drip_waits (true, bytes) = 1
drip_waits (false, bytes) = 0

drip_patient : (s : Bool × List ℕ) → drip_waits s < 2
drip_patient (true, bytes) = omega arith
drip_patient (false, bytes) = omega arith

drip_reads :
    (n : ℕ) (s : Bool × List ℕ) → 0 < n → IsNext drip (λ s. s.1) drip_waits s (drip_read n s)
drip_reads n (true, bytes) h = wait refl (omega arith)
drip_reads n (false, []) h = next refl (λ _. refl)
drip_reads n (false, b ∷ bs) h = next refl (λ e. absurd (ground (arith, e)))

abbrev drip_Delivers : Delivers drip 2
drip_Delivers = record {
  left = λ s. s.1;
  waits = drip_waits;
  patient = drip_patient;
  reads = drip_reads;
}

abbrev small_limits : Limits
small_limits = record Limits.default { max_message_size = 100 }

abbrev at_rows : List ℕ → List ℕ → DatasetReader drip
at_rows pending rest = record (unread (true, rest) small_limits) {
  pending = pending;
  columns = codes "a" ∷ [];
}

abbrev answer : Outcome (NextRow × DatasetReader drip) → List ℕ
answer (returns (row cells, r)) = codes "row;" ++ r.pending
answer (returns (refused why, r)) = codes "error"
answer (returns (ended, r)) = codes "end"
answer panics = codes "panic"
answer stuck = codes "stuck"

row_over_pieces : answer (next_row 2 20 (at_rows (codes " (") (codes "1)\n(2)"))) ≡ codes "row;"
unfolding next_row utf8_loop next_token guard
row_over_pieces = refl

end_of_rows : answer (next_row 2 20 (at_rows [] (codes "  # x"))) ≡ codes "end"
unfolding next_row
end_of_rows = refl

-- A comment that is cut behind its first slash is an error, and one that is at hand is not.
slash_at_the_end : answer (next_row 2 20 (at_rows (codes "/") (codes "/ x"))) ≡ codes "error"
unfolding next_row
slash_at_the_end = refl

slash_at_hand : answer (next_row 2 20 (at_rows (codes "//") (codes " x"))) ≡ codes "end"
unfolding next_row
slash_at_hand = refl

next_row-Agrees_example :
    Agrees drip_Delivers
      (at_rows (codes " (") (codes "1)\n(2)"))
      (next_row 2 9 (at_rows (codes " (") (codes "1)\n(2)")))
      (row_of_text (codes "a" ∷ []) small_limits (codes " (1)\n(2)"))
next_row-Agrees_example =
    next_row-Agrees drip_Delivers 9 (at_rows (codes " (") (codes "1)\n(2)")) refl refl
      (λ e. absurd (ground (arith, e))) (omega arith) (omega arith)

abbrev refusing : DatasetReader drip
refusing = at_rows (codes "/") (codes "/ x")

next_row_again_example :
    next_row 1 1 (record refusing { error = some entries_beside_rows })
    ≡ returns (refused entries_beside_rows, record refusing { error = some entries_beside_rows })
unfolding next_row
next_row_again_example =
    next_row_again 2 20 1 1 refusing (record refusing { error = some entries_beside_rows })
      (refused entries_beside_rows) refl (λ cells e. absurd (ground (arith, e)))

abbrev one_row : List ℕ
one_row = codes " (1) "

find_next_row-stays_example :
    (find_next_row (one_row ++ codes "# x") ≡ find_next_row one_row)
    ⊎ ((find_next_row one_row ≡ Scan.err entries_beside_rows) × EndsOpen one_row)
unfolding find_next_row
find_next_row-stays_example =
    find_next_row-stays one_row (codes "# x") (λ e. absurd (ground (arith, e)))
      (λ e. absurd (ground (arith, e)))

abbrev header : List ℕ
header = codes "@dataset T (a)"

abbrev table : List ℕ
table = header ++ codes " (1)"

with_limits-Opens_example :
    Opens drip_Delivers
      (unread (false, table) small_limits)
      (with_limits 2 21 (false, table) small_limits)
      (header_of_text small_limits table)
with_limits-Opens_example =
    with_limits-Opens drip_Delivers 21 (false, table) small_limits (omega arith) (omega arith)
