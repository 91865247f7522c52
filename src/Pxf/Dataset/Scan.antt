-- ===== src/Pxf/Dataset/Scan.antt =====
-- crates/protowire-pxf/src/dataset_reader.rs, lines 528 to 798: the scans over the bytes at hand. An
-- index is none where the source has -1. A loop gets the length of the input for its rounds, since
-- each moves on by a byte.
use protowire_rust.Prelude.{
  ℕ, zero, suc, ◌+◌, ◌-◌, List, [], ◌∷◌, Bool, true, false, not, ◌&&◌, ◌||◌, Option, none, some,
  leb, ◌==◌, if◌then◌else◌, length, codes,
}
use protowire_rust.Pxf.Parser.Bytes.{byte, within}
use protowire_rust.Pxf.Parser.State.{Reason}
use protowire_rust.Pxf.Token.{Position}

-- The errors of dataset_reader.rs, with what each prints. `parse_failed` is an error of parser.rs.
pub data StreamError : Type 0 where
  unterminated_string : StreamError
  unterminated_bytes : StreamError
  entries_beside_rows : StreamError
  row_not_utf8 : StreamError
  row_not_ended : StreamError
  row_too_large : ℕ → StreamError
  read_error : List ℕ → StreamError
  header_not_utf8 : StreamError
  no_dataset : StreamError
  header_too_large : StreamError
  parse_failed : Position → Reason → StreamError

-- The result of a scan.
pub data Streamed (A : Type 0) : Type 0 where
  ok : A → Streamed A
  err : StreamError → Streamed A

infixl 5 ◌>>=◌
abbrev pub ◌>>=◌ : {A B : Type 0} → Streamed A → (A → Streamed B) → Streamed B
ok a >>= f = f a
err e >>= f = err e

-- The `while` of `skip_simple_string` and of `skip_bytes_literal`, with the error of a line break.
unfoldable pub skip_quoted : (fuel : ℕ) → StreamError → List ℕ → ℕ → Streamed (Option ℕ)
skip_quoted zero e input j = ok none
skip_quoted (suc fuel) e input j = elim (within input j) [
  | false ↦ ok none
  | true ↦ elim (byte input j == b'\\') [
    | true ↦ elim (within input (j + 1)) [
      | true ↦ skip_quoted fuel e input (j + 2)
      | false ↦ ok none
    ]
    | false ↦ elim (byte input j == b'"') [
      | true ↦ ok (some (j + 1))
      | false ↦ elim (byte input j == b'\n') [
        | true ↦ err e
        | false ↦ skip_quoted fuel e input (j + 1)
      ]
    ]
  ]
]

unfoldable pub skip_simple_string : List ℕ → ℕ → Streamed (Option ℕ)
unfolding skip_quoted
skip_simple_string input i = skip_quoted (length input) unterminated_string input (i + 1)

unfoldable pub skip_bytes_literal : List ℕ → ℕ → Streamed (Option ℕ)
unfolding skip_quoted
skip_bytes_literal input i = skip_quoted (length input) unterminated_bytes input (i + 2)

abbrev pub at_triple : List ℕ → ℕ → Bool
at_triple input j = byte input j == b'"' && byte input (j + 1) == b'"' && byte input (j + 2) == b'"'

unfoldable pub triple_loop : (fuel : ℕ) → List ℕ → ℕ → Option ℕ
triple_loop zero input j = none
triple_loop (suc fuel) input j = elim (within input (j + 2)) [
  | false ↦ none
  | true ↦ elim (at_triple input j) [ true ↦ some (j + 3) | false ↦ triple_loop fuel input (j + 1) ]
]

unfoldable pub skip_triple_string : List ℕ → ℕ → Option ℕ
unfolding triple_loop
skip_triple_string input i = triple_loop (length input) input (i + 3)

unfoldable pub line_loop : (fuel : ℕ) → List ℕ → ℕ → ℕ
line_loop zero input j = j
line_loop (suc fuel) input j = elim (within input j && not (byte input j == b'\n')) [
  | true ↦ line_loop fuel input (j + 1)
  | false ↦ j
]

unfoldable pub skip_line_comment : List ℕ → ℕ → ℕ
unfolding line_loop
skip_line_comment input from = line_loop (length input) input from

unfoldable pub block_loop : (fuel : ℕ) → List ℕ → ℕ → Option ℕ
block_loop zero input j = none
block_loop (suc fuel) input j = elim (within input (j + 1)) [
  | false ↦ none
  | true ↦ elim (byte input j == b'*' && byte input (j + 1) == b'/') [
    | true ↦ some (j + 2)
    | false ↦ block_loop fuel input (j + 1)
  ]
]

unfoldable pub skip_block_comment : List ℕ → ℕ → Option ℕ
unfolding block_loop
skip_block_comment input from = block_loop (length input) input from

unfoldable pub skip_string_or_comment : List ℕ → ℕ → Streamed (Option ℕ)
unfolding skip_triple_string skip_simple_string skip_bytes_literal skip_line_comment
    skip_block_comment
skip_string_or_comment input i =
    let ch = byte input i in
    let next = byte input (i + 1) in
    if leb (length input) i
    then ok (some i)
    else if ch == b'"'
    then (if within input (i + 2) && next == b'"' && byte input (i + 2) == b'"'
        then ok (skip_triple_string input i)
        else skip_simple_string input i)
    else if ch == b'b' && within input (i + 1) && next == b'"'
    then skip_bytes_literal input i
    else if ch == b'#'
    then ok (some (skip_line_comment input (i + 1)))
    else if ch == b'/' && within input (i + 1) && next == b'/'
    then ok (some (skip_line_comment input (i + 2)))
    else if ch == b'/' && within input (i + 1) && next == b'*'
    then ok (skip_block_comment input (i + 2))
    else ok (some i)

-- `find_matching_paren_safe`, at the byte `i` inside `depth` open parentheses.
unfoldable pub paren_loop : (fuel : ℕ) → List ℕ → (depth i : ℕ) → Streamed (Option ℕ)
unfolding skip_string_or_comment
paren_loop zero input depth i = ok none
paren_loop (suc fuel) input depth i = elim (within input i) [
  | false ↦ ok none
  | true ↦ skip_string_or_comment input i >>= λ o. elim o [
    | none ↦ ok none
    | some j ↦ elim (j == i) [
      | false ↦ paren_loop fuel input depth j
      | true ↦ elim (byte input i == b'(') [
        | true ↦ paren_loop fuel input (depth + 1) (i + 1)
        | false ↦ elim (byte input i == b')') [
          | true ↦ elim (depth == 1) [
            | true ↦ ok (some i)
            | false ↦ paren_loop fuel input (depth - 1) (i + 1)
          ]
          | false ↦ paren_loop fuel input depth (i + 1)
        ]
      ]
    ]
  ]
]

unfoldable pub find_matching_paren_safe : List ℕ → ℕ → Streamed (Option ℕ)
unfolding paren_loop
find_matching_paren_safe input open_idx = paren_loop (length input) input 1 (open_idx + 1)

pub data FindRow : Type 0 where
  found : (start stop : ℕ) → FindRow
  done : FindRow
  need_more : FindRow
  in_row : FindRow

abbrev pub is_blank : ℕ → Bool
is_blank ch = ch == b' ' || ch == b'\t' || ch == b'\r' || ch == b'\n'

-- Lines 550 to 567: the first byte that is neither blank nor part of a string or comment, if any.
unfoldable pub blank_loop : (fuel : ℕ) → List ℕ → ℕ → Streamed (Option ℕ)
unfolding skip_string_or_comment
blank_loop zero input i = ok none
blank_loop (suc fuel) input i = elim (within input i) [
  | false ↦ ok none
  | true ↦ elim (is_blank (byte input i)) [
    | true ↦ blank_loop fuel input (i + 1)
    | false ↦ skip_string_or_comment input i >>= λ o. elim o [
      | none ↦ ok none
      | some j ↦ elim (j == i) [ true ↦ ok (some i) | false ↦ blank_loop fuel input j ]
    ]
  ]
]

-- Lines 568 to 583, at that byte.
unfoldable pub row_at : List ℕ → ℕ → Streamed FindRow
unfolding find_matching_paren_safe
row_at input i = elim (byte input i == b'@') [
  | true ↦ ok done
  | false ↦ elim (byte input i == b'(') [
    | false ↦ err entries_beside_rows
    | true ↦ find_matching_paren_safe input i >>= λ o. elim o [
      | none ↦ ok in_row
      | some stop ↦ ok (found i stop)
    ]
  ]
]

unfoldable pub find_next_row : List ℕ → Streamed FindRow
unfolding blank_loop row_at
find_next_row input = blank_loop (length input) input 0 >>= λ o. elim o [
  | none ↦ ok need_more
  | some i ↦ row_at input i
]

-- `is_ident_part` of dataset_reader.rs: no dot.
unfoldable pub is_word_part : ℕ → Bool
is_word_part c =
    leb b'a' c && leb c b'z' || leb b'A' c && leb c b'Z' || leb b'0' c && leb c b'9' || c == b'_'

-- `input[i..i + word.len()] == word`, for a range that lies inside.
unfoldable pub matches_at : List ℕ → ℕ → List ℕ → Bool
matches_at input i [] = true
matches_at input i (c ∷ word) = byte input i == c && matches_at input (i + 1) word

unfoldable pub at_dataset_word : List ℕ → ℕ → Bool
unfolding matches_at
at_dataset_word input i = leb (i + 8) (length input) && matches_at input i (codes "@dataset")

unfoldable pub table_loop : (fuel : ℕ) → List ℕ → ℕ → Streamed (Option ℕ)
unfolding skip_string_or_comment at_dataset_word is_word_part
table_loop zero input i = ok none
table_loop (suc fuel) input i = elim (within input i) [
  | false ↦ ok none
  | true ↦ skip_string_or_comment input i >>= λ o. elim o [
    | none ↦ ok none
    | some j ↦ elim (j == i) [
      | false ↦ table_loop fuel input j
      | true ↦ elim (at_dataset_word input i) [
        | false ↦ table_loop fuel input (i + 1)
        | true ↦ elim (i + 8 == length input) [
          | true ↦ ok none
          | false ↦ elim (is_word_part (byte input (i + 8))) [
            | true ↦ table_loop fuel input (i + 1)
            | false ↦ ok (some i)
          ]
        ]
      ]
    ]
  ]
]

unfoldable pub find_at_table : List ℕ → Streamed (Option ℕ)
unfolding table_loop
find_at_table input = table_loop (length input) input 0

unfoldable pub char_loop : (fuel : ℕ) → List ℕ → ℕ → (ch : ℕ) → Streamed (Option ℕ)
unfolding skip_string_or_comment
char_loop zero input i ch = ok none
char_loop (suc fuel) input i ch = elim (within input i) [
  | false ↦ ok none
  | true ↦ skip_string_or_comment input i >>= λ o. elim o [
    | none ↦ ok none
    | some j ↦ elim (j == i) [
      | false ↦ char_loop fuel input j ch
      | true ↦ elim (byte input i == ch) [
        | true ↦ ok (some i)
        | false ↦ char_loop fuel input (i + 1) ch
      ]
    ]
  ]
]

unfoldable pub find_next_char : List ℕ → ℕ → ℕ → Streamed (Option ℕ)
unfolding char_loop
find_next_char input start ch = char_loop (length input) input start ch

unfoldable pub scan_header_end : List ℕ → Streamed (Option ℕ)
unfolding find_at_table find_next_char find_matching_paren_safe
scan_header_end input = find_at_table input >>= λ o. elim o [
  | none ↦ ok none
  | some at_idx ↦ find_next_char input (at_idx + 8) b'(' >>= λ o'. elim o' [
    | none ↦ ok none
    | some lparen ↦ find_matching_paren_safe input lparen
  ]
]
