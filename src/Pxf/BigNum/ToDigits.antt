-- ===== src/Pxf/BigNum/ToDigits.antt =====
-- bignum.rs, lines 207 to 231: the number that the digits of `be_bytes_to_decimal` stand for.
use protowire_rust.Prelude.{
  ℕ, zero, suc, ◌+◌, ◌-◌, ◌*◌, ◌/◌, ◌%◌, ◌^◌, ◌≤◌, ◌<◌, List, [], ◌∷◌, reverse, All, ◌≡◌, ◌≢◌, ◌∙◌,
  ap, length, refl, arith, Bool-cases, inl, inr, ◌==◌, if◌then◌else◌, bit_or, ◌⊎◌,
}
use protowire_rust.Prelude.Bits.{disjoint-bit_or}
use protowire_rust.Pxf.BigNum.Radix
use native.Mathlib.Nat.{pow-suc}
use protowire_rust.Pxf.BigNum.{skip_zeros, div_ten, divide_loop, be_bytes_to_decimal, is_empty}
use protowire_rust.Pxf.BigNum.ToBytes.{IsByte, IsDecimal, bytes_number, decimal_number}

-- Leading zeros do not count, and none is left.
pub skip_zeros-number :
    (bs : List ℕ)
    → All IsByte bs
    → (bytes_number (skip_zeros bs) ≡ bytes_number bs)
      × All IsByte (skip_zeros bs)
      × Radix.Leads 256 0 (skip_zeros bs)
      × (length (skip_zeros bs) ≤ length bs)
unfolding skip_zeros
skip_zeros-number [] h = (refl, tt, tt, omega arith)
skip_zeros-number (b ∷ bs) h =
    let (value, bytes, leads, short) = skip_zeros-number bs h.1 in
    elim (Bool-cases (b == 0)) [
      | inl blank ↦
          rw blank
            (value ∙ ap (λ t. Radix.number 256 0 t bs) (ground arith), bytes, leads, omega arith)
      | inr digit ↦ rw digit (refl, h, ground arith, omega arith)
    ]

-- One division, of what stands before and `mag`.
div_ten-number :
    (a rem : ℕ) (mag : List ℕ)
    → rem < 10
    → All IsByte mag
    → (Radix.number 256 0 (a * 10 + rem) mag
        ≡ Radix.number 256 0 a (div_ten rem mag).0 * 10 + (div_ten rem mag).1)
      × ((div_ten rem mag).1 < 10)
      × All IsByte (div_ten rem mag).0
      × (length (div_ten rem mag).0 ≡ length mag)
unfolding div_ten
div_ten-number a rem [] small h = (refl, small, tt, refl)
div_ten-number a rem (limb ∷ mag) small h =
    let v = bit_or (rem * 2 ^ 8) limb in
    let joined : v ≡ rem * 256 + limb = disjoint-bit_or 8 rem limb (omega arith) in
    let (value, digit, bytes, size) =
      div_ten-number (a * 256 + (v / 10 % 2 ^ 8 - 0)) (v % 10) mag (omega arith) h.1 in
    (
      ap (λ t. Radix.number 256 0 t mag) (omega (arith, joined)) ∙ value,
      digit,
      ((omega arith, omega (arith, joined)), bytes),
      ap suc size,
    )

thousand : (n : ℕ) → 10 ^ (3 * suc n) ≡ 1000 * 10 ^ (3 * n)
thousand n = omega (
  arith,
  ap (λ (t : ℕ). 10 ^ t) (three n),
  pow-suc 10 (3 * n),
  pow-suc 10 (suc (3 * n)),
  pow-suc 10 (suc (suc (3 * n))),
)
  where
    three : (n : ℕ) → 3 * suc n ≡ suc (suc (suc (3 * n)))
    three n = omega arith

-- The number of bytes is below that power of 1000.
bytes_number-lt :
    (a : ℕ) (bs : List ℕ) → All IsByte bs → Radix.number 256 0 a bs < (a + 1) * 10 ^ (3 * length bs)
bytes_number-lt a [] h = omega arith
bytes_number-lt a (b ∷ bs) h =
    let p = 10 ^ (3 * length bs) in
    omega (
      arith,
      bytes_number-lt (a * 256 + (b - 0)) bs h.1,
      wider (a * 256 + (b - 0) + 1) ((a + 1) * 1000) p (omega arith),
      thousand (length bs),
      ap (λ (t : ℕ). (a + 1) * t) (thousand (length bs)),
    )
  where
    wider : (m n p : ℕ) → m ≤ n → m * p ≤ n * p
    wider m n p k = grind arith

-- The number of bytes is at least what stands before them.
number-ge : (a : ℕ) (bs : List ℕ) → a ≤ Radix.number 256 0 a bs
number-ge a [] = omega arith
number-ge a (b ∷ bs) = omega (arith, number-ge (a * 256 + (b - 0)) bs)

divide_loop-low :
    (fuel : ℕ) (mag : List ℕ)
    → All IsByte mag
    → Radix.Leads 256 0 mag
    → bytes_number mag < 10 ^ fuel
    → (Radix.low_number 10 b'0' (divide_loop fuel mag) ≡ bytes_number mag)
      × All IsDecimal (divide_loop fuel mag)
      × Radix.IsTrimmed 10 b'0' (divide_loop fuel mag)
unfolding divide_loop
divide_loop-low zero mag h leads room = (omega arith, tt, tt)
divide_loop-low (suc fuel) [] h leads room = (refl, tt, tt)
divide_loop-low (suc fuel) (b ∷ bs) h leads room =
    let mag = b ∷ bs in
    let q = (div_ten 0 mag).0 in
    let r = (div_ten 0 mag).1 in
    let (split, small, bytes, size) = div_ten-number 0 0 mag (omega arith) h in
    let (same, left, top, short) = skip_zeros-number q bytes in
    let (value, digits, trimmed) =
      divide_loop-low fuel (skip_zeros q) left top (omega (arith, pow-suc 10 fuel, same, split)) in
    let sum : Radix.low_number 10 b'0' (divide_loop (suc fuel) mag) ≡ bytes_number mag =
      omega (arith, value, same, split) in
    let pos : 0 < bytes_number mag = omega (arith, leads, number-ge (0 * 256 + (b - 0)) bs) in
    (
      sum,
      ((omega arith, omega arith), digits),
      Radix.IsTrimmed-cons 10 b'0' (b'0' + r) (divide_loop fuel (skip_zeros q)) trimmed
          (omega (arith, sum, pos)),
    )

-- The digits of bytes stand for the number that the bytes stand for, and none of them leads with
-- a zero, but for "0" itself.
pub be_bytes_to_decimal-number :
    (bytes : List ℕ)
    → All IsByte bytes
    → (decimal_number (be_bytes_to_decimal bytes) ≡ bytes_number bytes)
      × All IsDecimal (be_bytes_to_decimal bytes)
      × ((be_bytes_to_decimal bytes ≡ b'0' ∷ [])
          ⊎ ((be_bytes_to_decimal bytes ≢ []) × Radix.Leads 10 b'0' (be_bytes_to_decimal bytes)))
unfolding be_bytes_to_decimal
be_bytes_to_decimal-number bytes h =
    let (same, left, top, short) = skip_zeros-number bytes h in
    let (value, digits, shape) = render (skip_zeros bytes) left top in (value ∙ same, digits, shape)
  where
    IsRendering : List ℕ → List ℕ → Type 0
    IsRendering mag ds =
        (decimal_number ds ≡ bytes_number mag)
        × All IsDecimal ds
        × ((ds ≡ b'0' ∷ []) ⊎ ((ds ≢ []) × Radix.Leads 10 b'0' ds))

    render :
        (mag : List ℕ)
        → All IsByte mag
        → Radix.Leads 256 0 mag
        → IsRendering mag
            (if is_empty mag then b'0' ∷ [] else reverse (divide_loop (3 * length mag) mag))
    render [] left top = (refl, ((omega arith, omega arith), tt), inl refl)
    render (b ∷ bs) left top =
        let mag = b ∷ bs in
        let low = divide_loop (3 * length mag) mag in
        let (value, digits, trimmed) =
          divide_loop-low (3 * length mag) mag left top
            (omega (arith, bytes_number-lt 0 mag left)) in
        let total = Radix.number-reverse 10 b'0' low ∙ value in
        (
          total,
          Radix.All-reverse IsDecimal low digits,
          inr (
            λ e.
                absurd (
                  omega (arith, top, ap decimal_number e, total, number-ge (0 * 256 + (b - 0)) bs)),
            Radix.IsTrimmed-reverse 10 b'0' low trimmed,
          ),
        )
