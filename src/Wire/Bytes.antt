-- ===== src/Wire/Bytes.antt =====
-- What wire.rs uses of Rust's integers: `to_le_bytes` and `from_le_bytes`, the sign extension of
-- `as i64 as u64`, the arithmetic `>>` of a signed integer, `usize::try_from` and `checked_add`.
-- A signed integer of w bits is its bit pattern, a number below 2 ^ w.
use protowire_rust.Prelude.{
  ℕ, zero, suc, ◌+◌, ◌-◌, ◌*◌, ◌/◌, ◌%◌, ◌^◌, ◌<◌, ◌≡◌, refl, List, [], ◌∷◌, Option, none, some,
  ltb, if◌then◌else◌, length, ap, arith,
}
use native.Mathlib.Nat.{pow-suc}

-- `n` bytes of `v`, lowest first.
unfoldable pub to_le_bytes : ℕ → ℕ → List ℕ
to_le_bytes zero v = []
to_le_bytes (suc n) v = (v % 256) ∷ to_le_bytes n (v / 256)

unfoldable pub from_le_bytes : List ℕ → ℕ
from_le_bytes [] = 0
from_le_bytes (b ∷ bs) = b + 256 * from_le_bytes bs

pub length-to_le_bytes : (n v : ℕ) → length (to_le_bytes n v) ≡ n
unfolding to_le_bytes
length-to_le_bytes zero v = refl
length-to_le_bytes (suc n) v = ap suc (length-to_le_bytes n (v / 256))

pub from_le_bytes-to_le_bytes : (n v : ℕ) → v < 256 ^ n → from_le_bytes (to_le_bytes n v) ≡ v
unfolding to_le_bytes from_le_bytes
from_le_bytes-to_le_bytes zero v h = omega arith
from_le_bytes-to_le_bytes (suc n) v h =
    omega (arith, from_le_bytes-to_le_bytes n (v / 256) (omega (arith, pow-suc 256 n)))

-- `v as i64 as u64` of an i32
abbrev pub sign_extend : ℕ → ℕ
sign_extend v = if ltb v (2 ^ 31) then v else v + (2 ^ 64 - 2 ^ 32)

-- `v >> (w - 1)` of a signed integer of w bits: zeros, or ones
abbrev pub sign_mask : ℕ → ℕ → ℕ
sign_mask w v = if ltb v (2 ^ (w - 1)) then 0 else 2 ^ w - 1

-- `-x` in w bits
abbrev pub neg_bits : ℕ → ℕ → ℕ
neg_bits w x = (2 ^ w - x) % 2 ^ w

-- `usize::try_from`, which fails on no u64 here, and `checked_add`
abbrev pub usize_try_from : ℕ → Option ℕ
usize_try_from v = if ltb v (2 ^ 64) then some v else none

abbrev pub checked_add : ℕ → ℕ → Option ℕ
checked_add a b = if ltb (a + b) (2 ^ 64) then some (a + b) else none
