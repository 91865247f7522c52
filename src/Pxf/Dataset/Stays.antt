-- ===== src/Pxf/Dataset/Stays.antt =====
-- crates/protowire-pxf/src/dataset_reader.rs: what the loops of a scan answer when more bytes come.
use protowire_rust.Prelude.{
  ℕ, zero, suc, ◌+◌, ◌≤◌, ◌<◌, List, [], ◌∷◌, ◌++◌, Option, none, some, ◌≡◌, ◌≢◌, ◌⊎◌, refl, arith,
  inl, inr, length, get_or, length-append,
}
use protowire_rust.Pxf.Parser.Bytes.{byte}
use protowire_rust.Pxf.Dataset.Scan.{
  StreamError, Streamed, ok, err, skip_quoted, triple_loop, line_loop, block_loop,
}

-- Bytes at hand, and more behind them.
module _ (input more : List ℕ) where
  get_or-append : (xs : List ℕ) (i : ℕ) → i < length xs → get_or (xs ++ more) i 0 ≡ get_or xs i 0
  get_or-append [] i h = omega arith
  get_or-append (x ∷ xs) zero h = refl
  get_or-append (x ∷ xs) (suc i) h = get_or-append xs i (omega arith)

  pub byte-append : (i : ℕ) → i < length input → byte (input ++ more) i ≡ byte input i
  byte-append i h = get_or-append input i h

  pub length-more : length input ≤ length (input ++ more)
  length-more = omega (arith, length-append input more)

  pub skip_quoted-stays :
      (fuel fuel' : ℕ) (e : StreamError) (j : ℕ)
      → fuel ≤ fuel'
      → skip_quoted fuel e input j ≢ ok none
      → skip_quoted fuel' e (input ++ more) j ≡ skip_quoted fuel e input j
  unfolding skip_quoted
  skip_quoted-stays zero fuel' e j le h = absurd (h refl)
  skip_quoted-stays (suc fuel) zero e j le h = absurd (omega arith)
  skip_quoted-stays (suc fuel) (suc fuel') e j le h = ground (
    arith,
    h,
    byte-append j,
    length-more,
    skip_quoted-stays fuel fuel' e (j + 1),
    skip_quoted-stays fuel fuel' e (j + 2),
  )

  pub triple_loop-stays :
      (fuel fuel' j : ℕ)
      → fuel ≤ fuel'
      → triple_loop fuel input j ≢ none
      → triple_loop fuel' (input ++ more) j ≡ triple_loop fuel input j
  unfolding triple_loop
  triple_loop-stays zero fuel' j le h = absurd (h refl)
  triple_loop-stays (suc fuel) zero j le h = absurd (omega arith)
  triple_loop-stays (suc fuel) (suc fuel') j le h = ground (
    arith,
    h,
    byte-append j,
    byte-append (j + 1),
    byte-append (j + 2),
    length-more,
    triple_loop-stays fuel fuel' (j + 1),
  )

  pub block_loop-stays :
      (fuel fuel' j : ℕ)
      → fuel ≤ fuel'
      → block_loop fuel input j ≢ none
      → block_loop fuel' (input ++ more) j ≡ block_loop fuel input j
  unfolding block_loop
  block_loop-stays zero fuel' j le h = absurd (h refl)
  block_loop-stays (suc fuel) zero j le h = absurd (omega arith)
  block_loop-stays (suc fuel) (suc fuel') j le h = ground (
    arith,
    h,
    byte-append j,
    byte-append (j + 1),
    length-more,
    block_loop-stays fuel fuel' (j + 1),
  )

  pub line_loop-stays :
      (fuel fuel' j : ℕ)
      → fuel ≤ fuel'
      → length input ≤ j + fuel
      → line_loop fuel input j < length input
      → line_loop fuel' (input ++ more) j ≡ line_loop fuel input j
  unfolding line_loop
  line_loop-stays zero fuel' j le room h = absurd (omega (arith, h, room))
  line_loop-stays (suc fuel) zero j le room h = absurd (omega arith)
  line_loop-stays (suc fuel) (suc fuel') j le room h =
      ground (arith, h, byte-append j, length-more, line_loop-stays fuel fuel' (j + 1))

pub none-or : (r : Streamed (Option ℕ)) → (r ≡ ok none) ⊎ (r ≢ ok none)
none-or (ok none) = inl refl
none-or (ok (some k)) = inr (λ e. cc)
none-or (err e) = inr (λ e. cc)
