-- ===== src/Pxf/Dataset/Inside.antt =====
-- crates/protowire-pxf/src/dataset_reader.rs: where the end of a row or of the header lies.
use protowire_rust.Prelude.{
  ℕ, zero, suc, ◌+◌, ◌-◌, ◌<◌, List, [], Option, none, some, ◌≡◌, arith, inl, inr, length,
  Bool-cases,
}
use protowire_rust.Pxf.Parser.Bytes.{within}
use protowire_rust.Pxf.Dataset.Scan.{
  Streamed, ok, err, ◌>>=◌, find_at_table, find_next_char, scan_header_end, paren_loop,
  find_matching_paren_safe, found, blank_loop, row_at, find_next_row,
}
use protowire_rust.Pxf.Dataset.Elements.{
  misses, leaves, passes, moves, fails, skip_string_or_comment-Element,
}

pub blank_inside :
    (fuel : ℕ) (input : List ℕ) (i k : ℕ) → blank_loop fuel input i ≡ ok (some k) → k < length input
unfolding blank_loop
blank_inside zero input i k e = ground (arith, e)
blank_inside (suc fuel) input i k e = elim (Bool-cases (within input i)) [
  | inr out ↦ ground (arith, e, out)
  | inl here ↦ elim (skip_string_or_comment-Element input [] i (ground (arith, here))) [
    | misses x ↦ ground (arith, e, here, x, blank_inside fuel input (i + 1) k)
    | leaves j x far ↦
        ground (arith, e, here, x, blank_inside fuel input (i + 1) k, blank_inside fuel input j k)
    | passes x end opener ↦ ground (arith, e, here, x, blank_inside fuel input (i + 1) k)
    | fails y x x' ↦ ground (arith, e, here, x, blank_inside fuel input (i + 1) k)
    | moves j x x' ↦
        ground (arith, e, here, x, blank_inside fuel input (i + 1) k, blank_inside fuel input j k)
  ]
]

paren_inside :
    (fuel : ℕ) (input : List ℕ) (depth i k : ℕ)
    → paren_loop fuel input depth i ≡ ok (some k)
    → k < length input
unfolding paren_loop
paren_inside zero input depth i k e = ground (arith, e)
paren_inside (suc fuel) input depth i k e = elim (Bool-cases (within input i)) [
  | inr out ↦ ground (arith, e, out)
  | inl here ↦ elim (skip_string_or_comment-Element input [] i (ground (arith, here))) [
    | misses x ↦ ground (arith, e, here, x)
    | leaves j x far ↦ ground (arith, e, here, x, far, paren_inside fuel input depth j k)
    | passes x end opener ↦
        ground (arith, e, here, x, opener, paren_inside fuel input depth (i + 1) k)
    | fails y x x' ↦ ground (arith, e, here, x)
    | moves j x x' ↦ ground (
      arith,
      e,
      here,
      x,
      paren_inside fuel input depth j k,
      paren_inside fuel input (depth + 1) (i + 1) k,
      paren_inside fuel input (depth - 1) (i + 1) k,
      paren_inside fuel input depth (i + 1) k,
    )
  ]
]

pub found_inside :
    (input : List ℕ) (start stop : ℕ)
    → find_next_row input ≡ ok (found start stop)
    → (start < length input) × (stop < length input)
unfolding find_next_row row_at find_matching_paren_safe
found_inside input start stop e = ground (
  arith,
  e,
  blank_inside (length input) input 0 start,
  paren_inside (length input) input 1 (start + 1) stop,
)

module _ (input : List ℕ) (stop : ℕ) where
  columns_inside :
      (x : Streamed (Option ℕ))
      → (x >>= λ o. elim o [ none ↦ ok none | some lparen ↦ find_matching_paren_safe input lparen ])
        ≡ ok (some stop)
      → stop < length input
  unfolding find_matching_paren_safe
  columns_inside (ok none) e = absurd (ground (arith, e))
  columns_inside (ok (some lparen)) e = paren_inside (length input) input 1 (lparen + 1) stop e
  columns_inside (err y) e = absurd (ground (arith, e))

  word_inside :
      (x : Streamed (Option ℕ))
      → (x >>= λ o. elim o [
        | none ↦ ok none
        | some at_idx ↦ find_next_char input (at_idx + 8) b'(' >>= λ o'. elim o' [
          | none ↦ ok none
          | some lparen ↦ find_matching_paren_safe input lparen
        ]
      ])
        ≡ ok (some stop)
      → stop < length input
  word_inside (ok none) e = absurd (ground (arith, e))
  word_inside (ok (some at_idx)) e = columns_inside (find_next_char input (at_idx + 8) b'(') e
  word_inside (err y) e = absurd (ground (arith, e))

  pub header_inside : scan_header_end input ≡ ok (some stop) → stop < length input
  unfolding scan_header_end
  header_inside e = word_inside (find_at_table input) e
