-- ===== src/Pxf/Dataset/Elements.antt =====
-- crates/protowire-pxf/src/dataset_reader.rs: one step of a scan, with more bytes to come.
use protowire_rust.Prelude.{
  ℕ, ◌+◌, ◌≤◌, ◌<◌, List, ◌++◌, true, ◌||◌, Option, none, some, ◌==◌, ◌≡◌, refl, length,
}
use protowire_rust.Pxf.Parser.Bytes.{byte}
use protowire_rust.Pxf.Dataset.Scan.{StreamError, Streamed, ok, err, skip_string_or_comment}
use protowire_rust.Pxf.Dataset.Skips.{stays, lacks, outside, last, skip_string_or_comment-Skips}

-- What a scan does at a byte, with more bytes to come: it ends for want of bytes, or runs to the end,
-- or passes the last byte; or it goes on at an offset, or fails, the same as with them.
pub data Element (input more : List ℕ) (i : ℕ) : Type 0 where
  misses : skip_string_or_comment input i ≡ ok none → Element input more i
  leaves :
      (j : ℕ)
      → skip_string_or_comment input i ≡ ok (some j)
      → length input ≤ j
      → Element input more i
  passes :
      skip_string_or_comment input i ≡ ok (some i)
      → i + 1 ≡ length input
      → (byte input i == b'/' || byte input i == b'b') ≡ true
      → Element input more i
  moves :
      (j : ℕ)
      → skip_string_or_comment input i ≡ ok (some j)
      → skip_string_or_comment (input ++ more) i ≡ ok (some j)
      → Element input more i
  fails :
      (e : StreamError)
      → skip_string_or_comment input i ≡ err e
      → skip_string_or_comment (input ++ more) i ≡ err e
      → Element input more i

from_same :
    {input more : List ℕ} {i : ℕ} (r : Streamed (Option ℕ))
    → skip_string_or_comment input i ≡ r
    → skip_string_or_comment (input ++ more) i ≡ r
    → Element input more i
from_same (ok none) e e' = misses e
from_same (ok (some j)) e e' = moves j e e'
from_same (err x) e e' = fails x e e'

pub skip_string_or_comment-Element :
    (input more : List ℕ) (i : ℕ) → i < length input → Element input more i
skip_string_or_comment-Element input more i inside =
    elim (skip_string_or_comment-Skips input more i inside) [
      | stays same ↦ from_same (skip_string_or_comment input i) refl same
      | lacks e ↦ misses e
      | outside j e far ↦ leaves j e far
      | last e end opener ↦ passes e end opener
    ]
