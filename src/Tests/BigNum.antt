-- ===== src/Tests/BigNum.antt =====
-- bignum.rs on its own test values, and its theorems at concrete inputs.
use protowire_rust.Prelude.{ℕ, List, [], ◌∷◌, ◌≡◌, ◌≢◌, ◌⊎◌, refl, arith, true, false, codes, All}
use protowire_rust.Pxf.BigNum.{
  ok, err, too_many_digits, decimal_digits_to_be_bytes, be_bytes_to_decimal, skip_zeros,
  parse_big_int, parse_decimal, format_big_int, format_decimal, count_digits,
}
use protowire_rust.Pxf.BigNum.Radix
use protowire_rust.Pxf.BigNum.ToBytes.{
  IsByte, IsDecimal, bytes_number, decimal_number, decimal_digits_to_be_bytes-number,
}
use protowire_rust.Pxf.BigNum.ToDigits.{be_bytes_to_decimal-number}
use protowire_rust.Pxf.BigNum.RoundTrip.{
  to_be_bytes-to_decimal, to_decimal-to_be_bytes, parse_big_int-format_big_int,
}
use protowire_rust.Pxf.BigNum.Decimals.{parse_decimal-format_decimal, parse_decimal_refuses}

bytes-of_digits : decimal_digits_to_be_bytes (codes "65536") ≡ 1 ∷ 0 ∷ 0 ∷ []
unfolding decimal_digits_to_be_bytes
bytes-of_digits = refl

digits-of_bytes : be_bytes_to_decimal (0 ∷ 1 ∷ 0 ∷ []) ≡ codes "256"
unfolding be_bytes_to_decimal
digits-of_bytes = refl

negative_zero : parse_big_int (codes "-0") 4096 ≡ ok (record { abs = []; negative = false })
unfolding parse_big_int
negative_zero = refl

small_decimal : format_decimal (5 ∷ []) 2 false ≡ ok (codes "0.05")
unfolding format_decimal
small_decimal = refl

shifted_decimal : format_decimal (5 ∷ []) 0xfffffffe true ≡ ok (codes "-500")
unfolding format_decimal
shifted_decimal = refl

decimal_digits_to_be_bytes-number_example :
    (bytes_number (decimal_digits_to_be_bytes (codes "65536")) ≡ decimal_number (codes "65536"))
    × All IsByte (decimal_digits_to_be_bytes (codes "65536"))
    × Radix.Leads 256 0 (decimal_digits_to_be_bytes (codes "65536"))
decimal_digits_to_be_bytes-number_example =
    decimal_digits_to_be_bytes-number (codes "65536") (omega arith)

abbrev three_bytes : List ℕ
three_bytes = 0 ∷ 1 ∷ 0 ∷ []

be_bytes_to_decimal-number_example :
    (decimal_number (be_bytes_to_decimal three_bytes) ≡ bytes_number three_bytes)
    × All IsDecimal (be_bytes_to_decimal three_bytes)
    × ((be_bytes_to_decimal three_bytes ≡ b'0' ∷ [])
        ⊎ ((be_bytes_to_decimal three_bytes ≢ [])
            × Radix.Leads 10 b'0' (be_bytes_to_decimal three_bytes)))
be_bytes_to_decimal-number_example = be_bytes_to_decimal-number three_bytes (omega arith)

to_be_bytes-to_decimal_example :
    decimal_digits_to_be_bytes (be_bytes_to_decimal three_bytes) ≡ skip_zeros three_bytes
to_be_bytes-to_decimal_example = to_be_bytes-to_decimal three_bytes (omega arith)

to_decimal-to_be_bytes_example :
    be_bytes_to_decimal (decimal_digits_to_be_bytes (codes "907")) ≡ codes "907"
to_decimal-to_be_bytes_example =
    to_decimal-to_be_bytes b'9' (codes "07") (omega arith) (omega arith)

parse_big_int-format_big_int_example :
    parse_big_int (codes "-256") 3 ≡ ok (record { abs = 1 ∷ 0 ∷ []; negative = true })
unfolding format_big_int count_digits
parse_big_int-format_big_int_example =
    parse_big_int-format_big_int (1 ∷ 0 ∷ []) true (omega arith) (omega arith) (λ e. cc e)
      (codes "-256") 3 refl (omega arith)

parse_decimal-format_decimal_example :
    parse_decimal (codes "-123.45") 4096
    ≡ ok (record { unscaled = 0x30 ∷ 0x39 ∷ []; scale = 2; negative = true })
unfolding format_decimal
parse_decimal-format_decimal_example =
    parse_decimal-format_decimal (0x30 ∷ 0x39 ∷ []) 2 true (omega arith) (omega arith) (omega arith)
      (codes "-123.45") 4096 refl (omega arith)

parse_decimal_refuses_example :
    (s : List ℕ) × (format_decimal (5 ∷ []) 4096 false ≡ ok s)
    × (parse_decimal s 4096 ≡ err (too_many_digits 4097 4096))
unfolding be_bytes_to_decimal
parse_decimal_refuses_example = parse_decimal_refuses (5 ∷ []) false (omega arith) (omega arith)
