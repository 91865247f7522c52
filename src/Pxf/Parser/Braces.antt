-- ===== src/Pxf/Parser/Braces.antt =====
-- crates/protowire-pxf/src/parser.rs, `find_matching_brace`: where its answer lies.
use protowire_rust.Prelude.{
  ℕ, zero, suc, ◌+◌, ◌-◌, ◌≤◌, ◌<◌, List, some, ◌≡◌, arith, inl, inr, Option-cases, length,
}
use protowire_rust.Pxf.Parser.Bytes.{
  byte, skip_quoted, skip_triple, skip_string, skip_bytes, skip_eol, skip_comment, skip_element,
  brace_loop, find_matching_brace,
}

skip_quoted-lt : (fuel : ℕ) (input : List ℕ) (j k : ℕ) → skip_quoted fuel input j ≡ some k → j < k
unfolding skip_quoted
skip_quoted-lt zero input j k e = cc
skip_quoted-lt (suc fuel) input j k e =
    ground (arith, skip_quoted-lt fuel input (j + 2) k, skip_quoted-lt fuel input (j + 1) k)

skip_triple-lt : (fuel : ℕ) (input : List ℕ) (j k : ℕ) → skip_triple fuel input j ≡ some k → j < k
unfolding skip_triple
skip_triple-lt zero input j k e = cc
skip_triple-lt (suc fuel) input j k e = ground (arith, skip_triple-lt fuel input (j + 1) k)

skip_comment-lt : (fuel : ℕ) (input : List ℕ) (j k : ℕ) → skip_comment fuel input j ≡ some k → j < k
unfolding skip_comment
skip_comment-lt zero input j k e = cc
skip_comment-lt (suc fuel) input j k e = ground (arith, skip_comment-lt fuel input (j + 1) k)

skip_eol-le : (fuel : ℕ) (input : List ℕ) (j : ℕ) → j ≤ skip_eol fuel input j
unfolding skip_eol
skip_eol-le zero input j = omega arith
skip_eol-le (suc fuel) input j = ground (arith, skip_eol-le fuel input (j + 1))

skip_element-lt : (input : List ℕ) (i j : ℕ) → skip_element input i ≡ some j → i < j
unfolding skip_element skip_string skip_bytes
skip_element-lt input i j e = ground (
  arith,
  skip_triple-lt (length input) input (i + 3) j,
  skip_quoted-lt (length input) input (i + 1) j,
  skip_quoted-lt (length input) input (i + 2) j,
  skip_eol-le (length input) input (i + 1),
  skip_eol-le (length input) input (i + 2),
  skip_comment-lt (length input) input (i + 2) j,
)

abbrev Closes : List ℕ → ℕ → ℕ → Type 0
Closes input i c = (i ≤ c) × (c < length input) × (byte input c ≡ b'}')

brace_loop-Closes :
    (fuel : ℕ) (input : List ℕ) (depth i : ℕ) (c : ℕ)
    → brace_loop fuel input depth i ≡ some c
    → Closes input i c
unfolding brace_loop
brace_loop-Closes zero input depth i c e = cc
brace_loop-Closes (suc fuel) input depth i c e = elim (Option-cases (skip_element input i)) [
  | inl nothing ↦ ground (
    arith,
    nothing,
    brace_loop-Closes fuel input (depth + 1) (i + 1) c,
    brace_loop-Closes fuel input (depth - 1) (i + 1) c,
  )
  | inr (j, found) ↦ ground (
    arith,
    found,
    brace_loop-Closes fuel input (depth + 1) (i + 1) c,
    brace_loop-Closes fuel input (depth - 1) (i + 1) c,
    brace_loop-Closes fuel input depth j c,
    skip_element-lt input i j found,
  )
]

-- The brace that is found stands behind the open one, inside the input, and is a closing brace.
pub find_matching_brace_bounds :
    (input : List ℕ) (open_offset c : ℕ)
    → find_matching_brace input open_offset ≡ some c
    → (open_offset < c) × (c < length input) × (byte input c ≡ b'}')
unfolding find_matching_brace
find_matching_brace_bounds input open_offset c e =
    let (from, inside, brace) = brace_loop-Closes (length input) input 1 (open_offset + 1) c e in
    (omega arith, inside, brace)
