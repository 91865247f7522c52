-- ===== src/Pxf/BigNum/ToBytes.antt =====
-- bignum.rs, lines 184 to 205: the number that the bytes of `decimal_digits_to_be_bytes` stand for.
use protowire_rust.Prelude.{
  ℕ, zero, suc, ◌+◌, ◌-◌, ◌*◌, ◌/◌, ◌%◌, ◌^◌, ◌<◌, List, [], ◌∷◌, All, ◌≡◌, ◌∙◌, ap, refl, arith,
  ltb, Bool-cases, inl, inr, ltb→lt, ltb→le,
}
use protowire_rust.Pxf.BigNum.Radix
use native.Mathlib.Nat.{pow-suc}
use protowire_rust.Pxf.BigNum.{push_carry, times_ten_plus, digits_loop, decimal_digits_to_be_bytes}

abbrev pub IsByte : ℕ → Type 0
IsByte = Radix.IsDigit 256 0

abbrev pub IsDecimal : ℕ → Type 0
IsDecimal = Radix.IsDigit 10 b'0'

-- The number that bytes stand for, most significant first, and that decimal digits stand for.
abbrev pub bytes_number : List ℕ → ℕ
bytes_number = Radix.number 256 0 0

abbrev pub decimal_number : List ℕ → ℕ
decimal_number = Radix.number 10 b'0' 0

abbrev low : List ℕ → ℕ
low = Radix.low_number 256 0

abbrev Trimmed : List ℕ → Type 0
Trimmed = Radix.IsTrimmed 256 0

push_carry-low :
    (n c : ℕ)
    → c < 256 ^ n
    → (low (push_carry n c) ≡ c) × All IsByte (push_carry n c) × Trimmed (push_carry n c)
unfolding push_carry
push_carry-low zero c h = (omega arith, tt, tt)
push_carry-low (suc n) c h = elim (Bool-cases (ltb 0 c)) [
  | inl some_left ↦
      let (value, bytes, top) = push_carry-low n (c / 256) (omega (arith, pow-suc 256 n)) in
      let sum : low (c % 256 ∷ push_carry n (c / 256)) ≡ c = omega (arith, value) in
      rw some_left (
        sum,
        ((omega arith, omega arith), bytes),
        Radix.IsTrimmed-cons 256 0 (c % 256) (push_carry n (c / 256)) top
            (omega (arith, sum, ltb→lt 0 c some_left)),
      )
  | inr nothing ↦ rw nothing (omega (arith, ltb→le 0 c nothing), tt, tt)
]

times_ten_plus-low :
    (c : ℕ) (le : List ℕ)
    → c < 256
    → All IsByte le
    → Trimmed le
    → (low (times_ten_plus c le) ≡ low le * 10 + c)
      × All IsByte (times_ten_plus c le)
      × Trimmed (times_ten_plus c le)
unfolding times_ten_plus
times_ten_plus-low c [] small bytes h =
    let (value, parts, top) = push_carry-low 4 c (omega arith) in (omega (arith, value), parts, top)
times_ten_plus-low c (limb ∷ le) small bytes h =
    let v = limb * 10 + c in
    let (value, parts, top) =
      times_ten_plus-low (v / 256) le (omega arith) bytes.1
        (Radix.IsTrimmed-tail 256 0 limb le h) in
    let sum : low (times_ten_plus c (limb ∷ le)) ≡ low (limb ∷ le) * 10 + c =
      omega (arith, value) in
    (
      sum,
      ((omega arith, omega arith), parts),
      Radix.IsTrimmed-cons 256 0 (v % 256) (times_ten_plus (v / 256) le) top
          (omega (arith, sum, Radix.IsTrimmed-pos 256 0 limb le (omega arith) h bytes)),
    )

digits_loop-low :
    (le digits : List ℕ)
    → All IsByte le
    → Trimmed le
    → All IsDecimal digits
    → (low (digits_loop le digits) ≡ Radix.number 10 b'0' (low le) digits)
      × All IsByte (digits_loop le digits)
      × Trimmed (digits_loop le digits)
unfolding digits_loop
digits_loop-low le [] bytes h ds = (refl, bytes, h)
digits_loop-low le (d ∷ digits) bytes h ds =
    let c = (d + 256 - b'0') % 256 in
    let (value, parts, top) = times_ten_plus-low c le (omega arith) bytes h in
    let (total, all, trimmed) = digits_loop-low (times_ten_plus c le) digits parts top ds.1 in
    (total ∙ ap (λ t. Radix.number 10 b'0' t digits) (omega (arith, value)), all, trimmed)

-- The bytes of decimal digits stand for the number that the digits stand for, and none of them
-- leads with a zero.
pub decimal_digits_to_be_bytes-number :
    (digits : List ℕ)
    → All IsDecimal digits
    → (bytes_number (decimal_digits_to_be_bytes digits) ≡ decimal_number digits)
      × All IsByte (decimal_digits_to_be_bytes digits)
      × Radix.Leads 256 0 (decimal_digits_to_be_bytes digits)
unfolding decimal_digits_to_be_bytes
decimal_digits_to_be_bytes-number digits ds =
    let (value, bytes, trimmed) = digits_loop-low [] digits tt tt ds in
    (
      Radix.number-reverse 256 0 (digits_loop [] digits) ∙ value,
      Radix.All-reverse IsByte (digits_loop [] digits) bytes,
      Radix.IsTrimmed-reverse 256 0 (digits_loop [] digits) trimmed,
    )
