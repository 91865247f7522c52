-- ===== src/Pxf/Dataset/Found.antt =====
-- crates/protowire-pxf/src/dataset_reader.rs: what a search for the end of a row answers when more
-- bytes come.
use protowire_rust.Prelude.{
  ℕ, zero, suc, ◌+◌, ◌-◌, ◌≤◌, ◌<◌, List, ◌++◌, true, ◌||◌, Option, none, some, ◌==◌, ◌≡◌, ◌≢◌, ◌⊎◌,
  refl, arith, inl, inr, length, Bool-cases,
}
use protowire_rust.Pxf.Parser.Bytes.{byte, within}
use protowire_rust.Pxf.Dataset.Scan.{
  entries_beside_rows, Streamed, ok, err, ◌>>=◌, paren_loop, find_matching_paren_safe, FindRow,
  need_more, in_row, is_blank, blank_loop, row_at, find_next_row, table_loop, char_loop,
  find_next_char,
}
use protowire_rust.Pxf.Dataset.Stays.{byte-append, length-more, none-or}
use protowire_rust.Pxf.Dataset.Inside.{blank_inside}
use protowire_rust.Pxf.Dataset.Elements.{
  misses, leaves, passes, moves, fails, skip_string_or_comment-Element,
}

paren_outside :
    (fuel : ℕ) (input : List ℕ) (depth i : ℕ)
    → length input ≤ i
    → paren_loop fuel input depth i ≡ ok none
unfolding paren_loop
paren_outside zero input depth i h = refl
paren_outside (suc fuel) input depth i h = ground arith

char_outside :
    (fuel : ℕ) (input : List ℕ) (i ch : ℕ) → length input ≤ i → char_loop fuel input i ch ≡ ok none
unfolding char_loop
char_outside zero input i ch h = refl
char_outside (suc fuel) input i ch h = ground arith

pub table_outside :
    (fuel : ℕ) (input : List ℕ) (i : ℕ) → length input ≤ i → table_loop fuel input i ≡ ok none
unfolding table_loop
table_outside zero input i h = refl
table_outside (suc fuel) input i h = ground arith

blank_outside :
    (fuel : ℕ) (input : List ℕ) (i : ℕ) → length input ≤ i → blank_loop fuel input i ≡ ok none
unfolding blank_loop
blank_outside zero input i h = refl
blank_outside (suc fuel) input i h = ground arith

-- The last byte at hand may start a comment or a bytes literal.
abbrev pub EndsOpen : List ℕ → Type 0
EndsOpen input =
    (i : ℕ) × (i + 1 ≡ length input) × ((byte input i == b'/' || byte input i == b'b') ≡ true)

module _ (input more : List ℕ) where
  paren_loop-stays :
      (fuel fuel' depth i : ℕ)
      → fuel ≤ fuel'
      → paren_loop fuel input depth i ≢ ok none
      → paren_loop fuel' (input ++ more) depth i ≡ paren_loop fuel input depth i
  unfolding paren_loop
  paren_loop-stays zero fuel' depth i le h = absurd (h refl)
  paren_loop-stays (suc fuel) zero depth i le h = absurd (omega arith)
  paren_loop-stays (suc fuel) (suc fuel') depth i le h = elim (Bool-cases (within input i)) [
    | inr out ↦ absurd (h (paren_outside (suc fuel) input depth i (ground (arith, out))))
    | inl here ↦ elim (skip_string_or_comment-Element input more i (ground (arith, here))) [
      | misses e ↦ absurd (h (ground (arith, here, e)))
      | leaves j e far ↦ absurd (h (ground (arith, here, e, far, paren_outside fuel input depth j)))
      | passes e end opener ↦
          absurd (h (ground (arith, here, e, end, opener, paren_outside fuel input depth (i + 1))))
      | fails x e e' ↦ ground (arith, here, e, e', length-more input more)
      | moves j e e' ↦ ground (
        arith,
        h,
        here,
        e,
        e',
        length-more input more,
        byte-append input more i,
        paren_loop-stays fuel fuel' depth j,
        paren_loop-stays fuel fuel' (depth + 1) (i + 1),
        paren_loop-stays fuel fuel' (depth - 1) (i + 1),
        paren_loop-stays fuel fuel' depth (i + 1),
      )
    ]
  ]

  char_loop-stays :
      (fuel fuel' i ch : ℕ)
      → fuel ≤ fuel'
      → (ch == b'(') ≡ true
      → char_loop fuel input i ch ≢ ok none
      → char_loop fuel' (input ++ more) i ch ≡ char_loop fuel input i ch
  unfolding char_loop
  char_loop-stays zero fuel' i ch le c h = absurd (h refl)
  char_loop-stays (suc fuel) zero i ch le c h = absurd (omega arith)
  char_loop-stays (suc fuel) (suc fuel') i ch le c h = elim (Bool-cases (within input i)) [
    | inr out ↦ absurd (h (char_outside (suc fuel) input i ch (ground (arith, out))))
    | inl here ↦ elim (skip_string_or_comment-Element input more i (ground (arith, here))) [
      | misses e ↦ absurd (h (ground (arith, here, e)))
      | leaves j e far ↦ absurd (h (ground (arith, here, e, far, char_outside fuel input j ch)))
      | passes e end opener ↦
          absurd (h (ground (arith, here, e, end, opener, c, char_outside fuel input (i + 1) ch)))
      | fails x e e' ↦ ground (arith, here, e, e', length-more input more)
      | moves j e e' ↦ ground (
        arith,
        h,
        here,
        e,
        e',
        c,
        length-more input more,
        byte-append input more i,
        char_loop-stays fuel fuel' j ch,
        char_loop-stays fuel fuel' (i + 1) ch,
      )
    ]
  ]

  blank_loop-stays :
      (fuel fuel' i : ℕ)
      → fuel ≤ fuel'
      → blank_loop fuel input i ≢ ok none
      → (blank_loop fuel' (input ++ more) i ≡ blank_loop fuel input i)
        ⊎ ((k : ℕ) × (blank_loop fuel input i ≡ ok (some k))
            × (k + 1 ≡ length input)
            × ((byte input k == b'/' || byte input k == b'b') ≡ true))
  unfolding blank_loop
  blank_loop-stays zero fuel' i le h = absurd (h refl)
  blank_loop-stays (suc fuel) zero i le h = absurd (omega arith)
  blank_loop-stays (suc fuel) (suc fuel') i le h = elim (Bool-cases (within input i)) [
    | inr out ↦ absurd (h (blank_outside (suc fuel) input i (ground (arith, out))))
    | inl here ↦ elim (Bool-cases (is_blank (byte input i))) [
      | inl blank ↦
          elim (blank_loop-stays fuel fuel' (i + 1) (omega arith)
            (λ e. h (ground (arith, here, blank, e)))) [
              | inl same ↦ inl (
                  ground
                    (arith, here, blank, same, length-more input more, byte-append input more i))
              | inr (k, e, end, opener) ↦ inr (k, ground (arith, here, blank, e), end, opener)
            ]
      | inr other ↦ elim (skip_string_or_comment-Element input more i (ground (arith, here))) [
        | misses e ↦ absurd (h (ground (arith, here, other, e)))
        | leaves j e far ↦
            absurd (h (ground (arith, here, other, e, far, blank_outside fuel input j)))
        | passes e end opener ↦ inr (i, ground (arith, here, other, e), end, opener)
        | fails x e e' ↦
            inl
              (ground (arith, here, other, e, e', length-more input more, byte-append input more i))
        | moves j e e' ↦ elim (Bool-cases (j == i)) [
          | inl stop ↦ inl (
              ground
                (arith, here, other, stop, e, e', length-more input more, byte-append input more i))
          | inr on ↦
              elim (blank_loop-stays fuel fuel' j (omega arith)
                (λ x. h (ground (arith, here, other, on, e, x)))) [
                  | inl same ↦ inl (
                      ground (
                        arith,
                        here,
                        other,
                        on,
                        e,
                        e',
                        same,
                        length-more input more,
                        byte-append input more i,
                      ))
                  | inr (k, x, end, opener) ↦
                      inr (k, ground (arith, here, other, on, e, x), end, opener)
                ]
        ]
      ]
    ]
  ]

  pub find_matching_paren_safe-stays :
      (i : ℕ)
      → find_matching_paren_safe input i ≢ ok none
      → find_matching_paren_safe (input ++ more) i ≡ find_matching_paren_safe input i
  unfolding find_matching_paren_safe
  find_matching_paren_safe-stays i h =
      paren_loop-stays (length input) (length (input ++ more)) 1 (i + 1) (length-more input more) h

  pub find_next_char-stays :
      (start : ℕ)
      → find_next_char input start b'(' ≢ ok none
      → find_next_char (input ++ more) start b'(' ≡ find_next_char input start b'('
  unfolding find_next_char
  find_next_char-stays start h =
      char_loop-stays (length input) (length (input ++ more)) start b'(' (length-more input more)
        refl h

  row_at-stays :
      (i : ℕ)
      → i < length input
      → row_at input i ≢ ok in_row
      → row_at (input ++ more) i ≡ row_at input i
  unfolding row_at
  row_at-stays i inside h = ground (
    arith,
    h,
    byte-append input more i,
    none-or (find_matching_paren_safe input i),
    find_matching_paren_safe-stays i,
  )

same_steps :
    (r : Streamed (Option ℕ)) (f g : ℕ → Streamed FindRow)
    → ((i : ℕ) → r ≡ ok (some i) → f i ≡ g i)
    → (r >>= λ o. elim o [ none ↦ ok need_more | some i ↦ f i ])
      ≡ (r >>= λ o. elim o [ none ↦ ok need_more | some i ↦ g i ])
same_steps (ok none) f g h = refl
same_steps (ok (some i)) f g h = h i refl
same_steps (err e) f g h = refl

-- What a search for the next row finds in the bytes at hand, or how it fails, stays as it is when
-- more bytes come, unless it wants more bytes, or refuses a last byte that the next one may turn into
-- a comment or a bytes literal.
pub find_next_row-stays :
    (input more : List ℕ)
    → find_next_row input ≢ ok need_more
    → find_next_row input ≢ ok in_row
    → (find_next_row (input ++ more) ≡ find_next_row input)
      ⊎ ((find_next_row input ≡ err entries_beside_rows) × EndsOpen input)
unfolding find_next_row
find_next_row-stays input more h k =
    elim (blank_loop-stays input more (length input) (length (input ++ more)) 0
      (length-more input more) (λ e. h (ground (arith, e)))) [
        | inr (i, e, end, opener) ↦
            inr (unfold row_at in ground (arith, e, opener), (i, end, opener))
        | inl same ↦ inl (
            rw same (
              same_steps (blank_loop (length input) input 0) (row_at (input ++ more)) (row_at input)
                (λ i e.
                  row_at-stays input more i (blank_inside (length input) input 0 i e)
                    (λ x. k (ground (arith, e, x))))))
      ]
