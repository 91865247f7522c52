-- ===== src/Pxf/Dataset/FoundHeader.antt =====
-- crates/protowire-pxf/src/dataset_reader.rs: what a search for the end of the header answers when
-- more bytes come.
use protowire_rust.Prelude.{
  ℕ, zero, suc, ◌+◌, ◌≤◌, ◌<◌, List, [], ◌∷◌, ◌++◌, Bool, true, false, not, ◌&&◌, ◌||◌, Option,
  none, some, leb, ◌==◌, ◌≡◌, ◌≢◌, ◌⊎◌, refl, arith, inl, inr, length, Bool-cases, codes,
}
use protowire_rust.Pxf.Parser.Bytes.{byte, within}
use protowire_rust.Pxf.Dataset.Scan.{
  Streamed, ok, err, ◌>>=◌, skip_string_or_comment, matches_at, at_dataset_word, table_loop,
  find_at_table, find_next_char, scan_header_end,
}
use protowire_rust.Pxf.Dataset.Stays.{byte-append, length-more, none-or}
use protowire_rust.Pxf.Dataset.Elements.{
  misses, leaves, passes, moves, fails, skip_string_or_comment-Element,
}
use protowire_rust.Pxf.Dataset.Found.{
  table_outside, find_matching_paren_safe-stays, find_next_char-stays,
}

-- A byte that starts neither a literal nor a comment, whatever follows it.
is_plain : ℕ → Bool
is_plain c = not (c == b'"' || c == b'b' || c == b'/' || c == b'#')

all_plain : List ℕ → Bool
unfolding is_plain
all_plain [] = true
all_plain (c ∷ word) = is_plain c && all_plain word

matches_at-append :
    (input more : List ℕ) (i : ℕ) (word : List ℕ)
    → i + length word ≤ length input
    → matches_at (input ++ more) i word ≡ matches_at input i word
unfolding matches_at
matches_at-append input more i [] h = refl
matches_at-append input more i (c ∷ word) h =
    ground (arith, byte-append input more i, matches_at-append input more (i + 1) word)

-- The bytes at hand of a word that is there once more bytes come.
matches_at-plain :
    (input more : List ℕ) (i j : ℕ) (word : List ℕ)
    → all_plain word ≡ true
    → matches_at (input ++ more) i word ≡ true
    → i ≤ j
    → j < i + length word
    → j < length input
    → is_plain (byte input j) ≡ true
unfolding matches_at all_plain is_plain
matches_at-plain input more i j [] p h from below inside = absurd (omega arith)
matches_at-plain input more i j (c ∷ word) p h from below inside = elim (Bool-cases (i == j)) [
  | inl here ↦ ground (arith, p, h, here, byte-append input more j)
  | inr later ↦
      matches_at-plain input more (i + 1) j word (ground (arith, p)) (ground (arith, h))
        (ground (arith, later)) (omega arith) inside
]

-- Bytes that start nothing, of which too few are left for the word.
plain_tail :
    (fuel : ℕ) (input : List ℕ) (i : ℕ)
    → length input < i + 8
    → ((j : ℕ) → i ≤ j → j < length input → is_plain (byte input j) ≡ true)
    → table_loop fuel input i ≡ ok none
unfolding table_loop at_dataset_word skip_string_or_comment is_plain
plain_tail zero input i h plain = refl
plain_tail (suc fuel) input i h plain = elim (Bool-cases (within input i)) [
  | inr out ↦ ground (arith, out)
  | inl here ↦
      let p = plain i (omega arith) (ground (arith, here)) in
      let rest =
        plain_tail fuel input (i + 1) (omega arith)
          (λ j from inside. plain j (omega arith) inside) in
      ground (arith, here, p, rest)
]

same_ends :
    (r : Streamed (Option ℕ)) (f g : ℕ → Streamed (Option ℕ))
    → ((i : ℕ) → r ≡ ok (some i) → f i ≡ g i)
    → (r >>= λ o. elim o [ none ↦ ok none | some i ↦ f i ])
      ≡ (r >>= λ o. elim o [ none ↦ ok none | some i ↦ g i ])
same_ends (ok none) f g h = refl
same_ends (ok (some i)) f g h = h i refl
same_ends (err e) f g h = refl

module _ (input more : List ℕ) where
  -- The word at an offset, if it is there once more bytes come, is there now or cut off.
  word-stays :
      (i : ℕ)
      → (at_dataset_word (input ++ more) i ≡ at_dataset_word input i)
        ⊎ ((length input < i + 8) × (matches_at (input ++ more) i (codes "@dataset") ≡ true))
  unfolding at_dataset_word
  word-stays i = elim (Bool-cases (leb (i + 8) (length input))) [
    | inl near ↦ inl (
        ground (
          arith,
          near,
          length-more input more,
          matches_at-append input more i (codes "@dataset") (ground (arith, near)),
        ))
    | inr far ↦ elim (Bool-cases (matches_at (input ++ more) i (codes "@dataset"))) [
      | inl there ↦ inr (ground (arith, far), there)
      | inr missing ↦ inl (ground (arith, far, missing))
    ]
  ]

  word_short : (i : ℕ) → length input < i + 8 → at_dataset_word input i ≡ false
  unfolding at_dataset_word
  word_short i h = ground (arith, h)

  cut_word :
      (fuel i : ℕ)
      → length input < i + 8
      → matches_at (input ++ more) i (codes "@dataset") ≡ true
      → table_loop fuel input (i + 1) ≡ ok none
  cut_word fuel i short there = plain_tail fuel input (i + 1) (omega arith) λ j from inside.
      matches_at-plain input more i j (codes "@dataset") (unfold all_plain is_plain in refl) there
        (omega arith) (omega arith) inside

  table_loop-stays :
      (fuel fuel' i : ℕ)
      → fuel ≤ fuel'
      → table_loop fuel input i ≢ ok none
      → table_loop fuel' (input ++ more) i ≡ table_loop fuel input i
  unfolding table_loop
  table_loop-stays zero fuel' i le h = absurd (h refl)
  table_loop-stays (suc fuel) zero i le h = absurd (omega arith)
  table_loop-stays (suc fuel) (suc fuel') i le h = elim (Bool-cases (within input i)) [
    | inr out ↦ absurd (h (table_outside (suc fuel) input i (ground (arith, out))))
    | inl here ↦ elim (skip_string_or_comment-Element input more i (ground (arith, here))) [
      | misses e ↦ absurd (h (ground (arith, here, e)))
      | leaves j e far ↦ absurd (h (ground (arith, here, e, far, table_outside fuel input j)))
      | passes e end opener ↦
          absurd (h (ground (arith, here, e, end, word_short i, table_outside fuel input (i + 1))))
      | fails x e e' ↦ ground (arith, here, e, e', length-more input more)
      | moves j e e' ↦ elim (word-stays i) [
        | inr (short, there) ↦ elim (Bool-cases (j == i)) [
          | inl stop ↦
              absurd
                (h (ground (arith, here, e, stop, word_short i short, cut_word fuel i short there)))
          | inr on ↦
              ground
                (arith, h, here, e, e', on, length-more input more, table_loop-stays fuel fuel' j)
        ]
        | inl same ↦ elim (Bool-cases (j == i)) [
          | inr on ↦
              ground
                (arith, h, here, e, e', on, length-more input more, table_loop-stays fuel fuel' j)
          | inl stop ↦ elim (Bool-cases (at_dataset_word input i)) [
            | inr no_word ↦ ground (
              arith,
              h,
              here,
              e,
              e',
              stop,
              same,
              no_word,
              length-more input more,
              table_loop-stays fuel fuel' (i + 1),
            )
            | inl word ↦ elim (Bool-cases (i + 8 == length input)) [
              | inl end ↦ absurd (h (ground (arith, here, e, stop, word, end)))
              | inr behind ↦
                  let near : i + 8 < length input = ground (arith, word_short i, word, behind) in
                  ground (
                    arith,
                    h,
                    here,
                    e,
                    e',
                    stop,
                    same,
                    word,
                    near,
                    length-more input more,
                    byte-append input more (i + 8) near,
                    table_loop-stays fuel fuel' (i + 1),
                  )
            ]
          ]
        ]
      ]
    ]
  ]

  find_at_table-stays :
      find_at_table input ≢ ok none → find_at_table (input ++ more) ≡ find_at_table input
  unfolding find_at_table
  find_at_table-stays h =
      table_loop-stays (length input) (length (input ++ more)) 0 (length-more input more) h

  -- The end of the header, and an error in front of it, stay as they are when more bytes come.
  pub scan_header_end-stays :
      scan_header_end input ≢ ok none → scan_header_end (input ++ more) ≡ scan_header_end input
  unfolding scan_header_end
  scan_header_end-stays h = elim (none-or (find_at_table input)) [
    | inl e ↦ absurd (h (ground (arith, e)))
    | inr some_at ↦ rw (find_at_table-stays some_at) (
        same_ends (find_at_table input) _ _ λ at_idx e.
          elim (none-or (find_next_char input (at_idx + 8) b'(')) [
            | inl e' ↦ absurd (h (ground (arith, e, e')))
            | inr some_char ↦ rw (find_next_char-stays input more (at_idx + 8) some_char) (
                same_ends (find_next_char input (at_idx + 8) b'(') _ _ λ lparen e'.
                  find_matching_paren_safe-stays input more lparen
                    (λ x. h (ground (arith, e, e', x))))
          ])
  ]
