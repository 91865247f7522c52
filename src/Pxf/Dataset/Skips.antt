-- ===== src/Pxf/Dataset/Skips.antt =====
-- crates/protowire-pxf/src/dataset_reader.rs: what `skip_string_or_comment` does at a byte, with and
-- without more bytes to come.
use protowire_rust.Prelude.{
  ℕ, zero, suc, ◌+◌, ◌≤◌, ◌<◌, List, ◌++◌, true, ◌&&◌, ◌||◌, none, some, ltb, ◌==◌, ◌≡◌, ◌⊎◌, refl,
  arith, inl, inr, length, Option-cases, Bool-cases,
}
use protowire_rust.Pxf.Parser.Bytes.{byte, within}
use protowire_rust.Pxf.Dataset.Scan.{
  StreamError, unterminated_string, unterminated_bytes, ok, err, skip_quoted, skip_simple_string,
  skip_bytes_literal, skip_triple_string, skip_line_comment, skip_block_comment,
  skip_string_or_comment,
}
-- Bytes at hand, and more behind them.
use protowire_rust.Pxf.Dataset.Stays.{
  byte-append, length-more, none-or, skip_quoted-stays, triple_loop-stays, block_loop-stays,
  line_loop-stays,
}

-- What `skip_string_or_comment` does at a byte, with more bytes to come: the same as with them; it
-- lacks bytes; it runs to the end; or it takes the last byte for itself, where the next might have made
-- it a comment or a bytes literal.
pub data Skips (input more : List ℕ) (i : ℕ) : Type 0 where
  stays :
      skip_string_or_comment (input ++ more) i ≡ skip_string_or_comment input i → Skips input more i
  lacks : skip_string_or_comment input i ≡ ok none → Skips input more i
  outside :
      (j : ℕ) → skip_string_or_comment input i ≡ ok (some j) → length input ≤ j → Skips input more i
  last :
      skip_string_or_comment input i ≡ ok (some i)
      → i + 1 ≡ length input
      → (byte input i == b'/' || byte input i == b'b') ≡ true
      → Skips input more i

quoted_outside :
    (fuel : ℕ) (e : StreamError) (input : List ℕ) (j : ℕ)
    → length input ≤ j
    → skip_quoted fuel e input j ≡ ok none
unfolding skip_quoted
quoted_outside zero e input j h = refl
quoted_outside (suc fuel) e input j h = ground arith

-- A literal of which one byte at most is at hand.
quoted_short :
    (fuel : ℕ) (e : StreamError) (input : List ℕ) (j : ℕ)
    → length input ≤ j + 1
    → (skip_quoted fuel e input j ≡ ok none)
      ⊎ (skip_quoted fuel e input j ≡ ok (some (j + 1)))
      ⊎ ((skip_quoted fuel e input j ≡ err e) × (j < length input) × (byte input j ≡ b'\n'))
unfolding skip_quoted
quoted_short zero e input j h = inl refl
quoted_short (suc fuel) e input j h = elim (Bool-cases (within input j)) [
  | inr out ↦ inl (ground (arith, out))
  | inl at_hand ↦ elim (Bool-cases (byte input j == b'\\')) [
    | inl esc ↦ inl (ground (arith, at_hand, esc))
    | inr c ↦ elim (Bool-cases (byte input j == b'"')) [
      | inl q ↦ inr (inl (ground (arith, at_hand, c, q)))
      | inr d ↦ elim (Bool-cases (byte input j == b'\n')) [
        | inl line ↦ inr (
            inr
              (ground (arith, at_hand, c, d, line), ground (arith, at_hand), ground (arith, line)))
        | inr other ↦
            inl (ground (arith, at_hand, c, d, other, quoted_outside fuel e input (j + 1)))
      ]
    ]
  ]
]

module _ (input more : List ℕ) (i : ℕ) (inside : i < length input) where
  quote-Skips : (byte input i == b'"') ≡ true → Skips input more i
  unfolding skip_string_or_comment skip_triple_string skip_simple_string
  quote-Skips q =
      elim (Bool-cases
        (within input (i + 2) && byte input (i + 1) == b'"' && byte input (i + 2) == b'"')) [
          | inl three ↦ elim (Option-cases (skip_triple_string input i)) [
            | inl nothing ↦ lacks (ground (arith, q, three, nothing))
            | inr (k, e) ↦ stays (
                ground (
                  arith,
                  q,
                  three,
                  e,
                  length-more input more,
                  byte-append input more i,
                  byte-append input more (i + 1),
                  byte-append input more (i + 2),
                  triple_loop-stays input more (length input) (length (input ++ more)) (i + 3),
                ))
          ]
          | inr plain ↦ elim (none-or (skip_simple_string input i)) [
            | inl nothing ↦ lacks (ground (arith, q, plain, nothing))
            | inr some_way ↦ elim (Bool-cases (within input (i + 2))) [
              | inl far ↦ stays (
                  ground (
                    arith,
                    q,
                    plain,
                    far,
                    length-more input more,
                    byte-append input more i,
                    byte-append input more (i + 1),
                    byte-append input more (i + 2),
                    skip_quoted-stays input more (length input) (length (input ++ more))
                        unterminated_string (i + 1),
                    some_way,
                  ))
              | inr short ↦
                  elim (quoted_short (length input) unterminated_string input (i + 1)
                    (ground (arith, short))) [
                      | inl nothing ↦ absurd (some_way nothing)
                      | inr (inl e) ↦
                          outside (i + 1 + 1) (ground (arith, q, plain, e)) (ground (arith, short))
                      | inr (inr (e, near, line)) ↦ stays (
                          ground (
                            arith,
                            q,
                            plain,
                            e,
                            near,
                            line,
                            length-more input more,
                            byte-append input more i,
                            byte-append input more (i + 1),
                            skip_quoted-stays input more (length input) (length (input ++ more))
                                unterminated_string (i + 1),
                            some_way,
                          ))
                    ]
            ]
          ]
        ]

  bytes-Skips : (byte input i == b'b') ≡ true → Skips input more i
  unfolding skip_string_or_comment skip_bytes_literal
  bytes-Skips b = elim (Bool-cases (within input (i + 1))) [
    | inr end ↦ last (ground (arith, b, end)) (ground (arith, end)) (ground (arith, b))
    | inl at_hand ↦ elim (Bool-cases (byte input (i + 1) == b'"')) [
      | inr other ↦ stays (
          ground (
            arith,
            b,
            at_hand,
            other,
            length-more input more,
            byte-append input more i,
            byte-append input more (i + 1),
          ))
      | inl q ↦ elim (none-or (skip_bytes_literal input i)) [
        | inl nothing ↦ lacks (ground (arith, b, at_hand, q, nothing))
        | inr some_way ↦ stays (
            ground (
              arith,
              b,
              at_hand,
              q,
              some_way,
              length-more input more,
              byte-append input more i,
              byte-append input more (i + 1),
              skip_quoted-stays input more (length input) (length (input ++ more))
                  unterminated_bytes (i + 2),
            ))
      ]
    ]
  ]

  line-Skips :
      (from : ℕ)
      → skip_string_or_comment input i ≡ ok (some (skip_line_comment input from))
      → skip_string_or_comment (input ++ more) i
        ≡ ok (some (skip_line_comment (input ++ more) from))
      → Skips input more i
  unfolding skip_line_comment
  line-Skips from here there =
      elim (Bool-cases (ltb (skip_line_comment input from) (length input))) [
        | inl near ↦ stays (
            ground (
              arith,
              here,
              there,
              near,
              length-more input more,
              line_loop-stays input more (length input) (length (input ++ more)) from,
            ))
        | inr far ↦ outside (skip_line_comment input from) here (ground (arith, far))
      ]

  slash-Skips : (byte input i == b'/') ≡ true → Skips input more i
  unfolding skip_string_or_comment skip_block_comment
  slash-Skips s = elim (Bool-cases (within input (i + 1))) [
    | inr end ↦ last (ground (arith, s, end)) (ground (arith, end)) (ground (arith, s))
    | inl at_hand ↦ elim (Bool-cases (byte input (i + 1) == b'/')) [
      | inl line ↦ line-Skips (i + 2) (ground (arith, s, at_hand, line)) (
          ground (
            arith,
            s,
            at_hand,
            line,
            length-more input more,
            byte-append input more i,
            byte-append input more (i + 1),
          ))
      | inr other ↦ elim (Bool-cases (byte input (i + 1) == b'*')) [
        | inr none_of ↦ stays (
            ground (
              arith,
              s,
              at_hand,
              other,
              none_of,
              length-more input more,
              byte-append input more i,
              byte-append input more (i + 1),
            ))
        | inl star ↦ elim (Option-cases (skip_block_comment input (i + 2))) [
          | inl nothing ↦ lacks (ground (arith, s, at_hand, star, nothing))
          | inr (k, e) ↦ stays (
              ground (
                arith,
                s,
                at_hand,
                star,
                e,
                length-more input more,
                byte-append input more i,
                byte-append input more (i + 1),
                block_loop-stays input more (length input) (length (input ++ more)) (i + 2),
              ))
        ]
      ]
    ]
  ]

  pub skip_string_or_comment-Skips : Skips input more i
  unfolding skip_string_or_comment
  skip_string_or_comment-Skips = elim (Bool-cases (byte input i == b'"')) [
    | inl q ↦ quote-Skips q
    | inr c ↦ elim (Bool-cases (byte input i == b'b')) [
      | inl b ↦ bytes-Skips b
      | inr d ↦ elim (Bool-cases (byte input i == b'/')) [
        | inl s ↦ slash-Skips s
        | inr f ↦ elim (Bool-cases (byte input i == b'#')) [
          | inl hash ↦
              line-Skips (i + 1) (ground (arith, hash))
                (ground (arith, hash, length-more input more, byte-append input more i))
          | inr other ↦
              stays
                (ground (arith, c, d, f, other, length-more input more, byte-append input more i))
        ]
      ]
    ]
  ]
