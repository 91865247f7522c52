-- ===== src/Pxf/BigNum/RoundTrip.antt =====
-- bignum.rs: the two conversions one after the other, and `parse_big_int` on what `format_big_int`
-- prints.
use protowire_rust.Prelude.{
  ℕ, ◌+◌, ◌-◌, ◌*◌, ◌≤◌, List, [], ◌∷◌, ◌++◌, All, ◌≡◌, ◌≢◌, ◌∙◌, ap, length, refl, sym, arith,
  Bool, true, false, not, ◌&&◌, inl, inr, if◌then◌else◌, append-nil, codes,
}
use protowire_rust.Pxf.Chars.{is_digit}
use protowire_rust.Pxf.BigNum.Radix
use protowire_rust.Pxf.BigNum.Texts.{
  check_literal_digits-ok, count_digits-length, all_digits-decimal, bound_literal-ok,
  significant-Leads,
}
use protowire_rust.Pxf.BigNum.{
  ok, count_digits, strip_minus, significant, bound_literal, decimal_digits_to_be_bytes,
  be_bytes_to_decimal, skip_zeros, is_empty, is_zero_text, parse_big_int, format_big_int,
}
use protowire_rust.Pxf.BigNum.ToBytes.{
  IsByte, IsDecimal, bytes_number, decimal_number, decimal_digits_to_be_bytes-number,
}
use protowire_rust.Pxf.BigNum.ToDigits.{be_bytes_to_decimal-number, skip_zeros-number}

-- Bytes that the digits of the same number become are those bytes without their leading zeros.
pub to_be_bytes_unique :
    (digits bytes : List ℕ)
    → All IsDecimal digits
    → All IsByte bytes
    → decimal_number digits ≡ bytes_number bytes
    → decimal_digits_to_be_bytes digits ≡ skip_zeros bytes
to_be_bytes_unique digits bytes ds bs same =
    let (value, all, leads) = decimal_digits_to_be_bytes-number digits ds in
    let (kept, all', leads', short) = skip_zeros-number bytes bs in
    Radix.number_unique 256 0 (omega arith) (decimal_digits_to_be_bytes digits) (skip_zeros bytes)
      all all' leads leads' (value ∙ same ∙ sym kept)

-- Bytes become decimal digits that become the bytes again, without their leading zeros.
pub to_be_bytes-to_decimal :
    (bytes : List ℕ)
    → All IsByte bytes
    → decimal_digits_to_be_bytes (be_bytes_to_decimal bytes) ≡ skip_zeros bytes
to_be_bytes-to_decimal bytes h =
    let (value, digits, shape) = be_bytes_to_decimal-number bytes h in
    to_be_bytes_unique (be_bytes_to_decimal bytes) bytes digits h value

pub decimal_number-ge : (a : ℕ) (ds : List ℕ) → a ≤ Radix.number 10 b'0' a ds
decimal_number-ge a [] = omega arith
decimal_number-ge a (d ∷ ds) = omega (arith, decimal_number-ge (a * 10 + (d - b'0')) ds)

-- Decimal digits with no leading zero become bytes that become the same digits again.
pub to_decimal-to_be_bytes :
    (d : ℕ) (ds : List ℕ)
    → All IsDecimal (d ∷ ds)
    → d ≢ b'0'
    → be_bytes_to_decimal (decimal_digits_to_be_bytes (d ∷ ds)) ≡ d ∷ ds
to_decimal-to_be_bytes d ds h lead =
    let (value, bytes, leads) = decimal_digits_to_be_bytes-number (d ∷ ds) h in
    let (back, digits, shape) =
      be_bytes_to_decimal-number (decimal_digits_to_be_bytes (d ∷ ds)) bytes in
    elim shape [
      | inl nought ↦ absurd (
          omega (
            arith,
            ap decimal_number nought,
            back,
            value,
            decimal_number-ge (0 * 10 + (d - b'0')) ds,
          ))
      | inr other ↦
          Radix.number_unique 10 b'0' (omega arith)
            (be_bytes_to_decimal (decimal_digits_to_be_bytes (d ∷ ds))) (d ∷ ds) digits h other.1
            lead (back ∙ value)
    ]

pub skip_zeros-Leads : (bytes : List ℕ) → Radix.Leads 256 0 bytes → skip_zeros bytes ≡ bytes
unfolding skip_zeros
skip_zeros-Leads [] h = refl
skip_zeros-Leads (b ∷ bs) h = ground arith

pub nonempty : (s : List ℕ) → s ≢ [] → is_empty s ≡ false
nonempty [] h = absurd (h refl)
nonempty (c ∷ s) h = refl

-- What is read from digits, with a sign or without.
abbrev pub signed : Bool → List ℕ → List ℕ
signed negative digits = if negative then b'-' ∷ digits else digits

pub strip_minus-signed :
    (negative : Bool) (ds es : List ℕ)
    → All IsDecimal ds
    → ds ≢ []
    → strip_minus (signed negative (ds ++ es)) ≡ (negative, ds ++ es)
unfolding strip_minus
strip_minus-signed true ds es h some_digit = refl
strip_minus-signed false [] es h some_digit = absurd (some_digit refl)
strip_minus-signed false (d ∷ ds) es h some_digit = ground arith

pub strip_minus-digits :
    (negative : Bool) (ds : List ℕ)
    → All IsDecimal ds
    → ds ≢ []
    → strip_minus (signed negative ds) ≡ (negative, ds)
strip_minus-digits negative ds h some_digit =
    rw (append-nil ds) at (strip_minus-signed negative ds [] h some_digit)

pub count_digits-signed :
    (negative : Bool) (s : List ℕ) → count_digits (signed negative s) ≡ count_digits s
unfolding count_digits is_digit
count_digits-signed true s = omega arith
count_digits-signed false s = refl

pub significant-signed :
    (negative : Bool) (s : List ℕ) → significant (signed negative s) ≡ significant s
unfolding significant is_digit
significant-signed true s = refl
significant-signed false s = refl

parse_big_int-digits :
    (negative : Bool) (ds : List ℕ) (m : ℕ)
    → All IsDecimal ds
    → ds ≢ []
    → length ds ≤ m
    → parse_big_int (signed negative ds) m
      ≡ ok (record {
        abs = decimal_digits_to_be_bytes ds;
        negative = negative && not (is_empty (decimal_digits_to_be_bytes ds));
      })
unfolding parse_big_int
parse_big_int-digits negative ds m h some_digit room =
    rw
      (
        check_literal_digits-ok (signed negative ds) m
            (omega (arith, count_digits-signed negative ds, count_digits-length ds h)),
        strip_minus-digits negative ds h some_digit,
        nonempty ds some_digit,
        all_digits-decimal ds h,
      )
      refl

zero_text-Leads : (ds : List ℕ) → Radix.Leads 10 b'0' ds → is_zero_text ds ≡ false
zero_text-Leads [] h = refl
zero_text-Leads (d ∷ ds) h = ground arith

-- Only no bytes print as "0".
pub zero_text-bytes :
    (bytes : List ℕ)
    → All IsByte bytes
    → Radix.Leads 256 0 bytes
    → be_bytes_to_decimal bytes ≡ b'0' ∷ []
    → bytes ≡ []
unfolding decimal_digits_to_be_bytes
zero_text-bytes bytes h leads nought =
    sym (skip_zeros-Leads bytes leads)
    ∙ sym (to_be_bytes-to_decimal bytes h)
    ∙ ap decimal_digits_to_be_bytes nought

sign_kept :
    (abs : List ℕ) (negative : Bool)
    → (abs ≡ [] → negative ≡ false)
    → (negative && not (is_empty abs)) ≡ negative
sign_kept [] negative h = rw (h refl)
sign_kept (b ∷ bs) true h = refl
sign_kept (b ∷ bs) false h = refl

-- What `format_big_int` prints: a sign, where there is one, and the digits.
format_big_int-literal :
    (abs : List ℕ) (negative : Bool) (s : List ℕ)
    → All IsByte abs
    → Radix.Leads 256 0 abs
    → (abs ≡ [] → negative ≡ false)
    → format_big_int abs negative ≡ ok s
    → (s ≡ signed negative (be_bytes_to_decimal abs))
      × (length (be_bytes_to_decimal abs) ≤ 4096)
      × (be_bytes_to_decimal abs ≢ [])
unfolding format_big_int
format_big_int-literal abs negative s bytes leads sign printed =
    let text = be_bytes_to_decimal abs in
    let (value, digits, shape) = be_bytes_to_decimal-number abs bytes in
    elim shape [
      | inl nought ↦
          let plain = sign (zero_text-bytes abs bytes leads nought) in
          let (same, small) = bound_literal-ok (codes "pxf.BigInt") text s (rw plain at printed) in
          (rw plain same, omega (arith, ap length nought), λ e. cc nought)
      | inr other ↦
          let test = zero_text-Leads text other.1 in
          let (same, small) =
            bound_literal-ok (codes "pxf.BigInt") (signed negative text) s
              (signed-printed negative (rw test at printed)) in
          (
            same,
            omega (
              arith,
              small,
              significant-signed negative text,
              significant-Leads text digits other.1,
            ),
            other.0,
          )
    ]
  where
    signed-printed :
        (n : Bool)
        → bound_literal
            (codes "pxf.BigInt")
            (if n && true then b'-' ∷ be_bytes_to_decimal abs else be_bytes_to_decimal abs)
          ≡ ok s
        → bound_literal (codes "pxf.BigInt") (signed n (be_bytes_to_decimal abs)) ≡ ok s
    signed-printed true h = h
    signed-printed false h = h

module _ (abs : List ℕ) (negative : Bool) (bytes : All IsByte abs)
    (leads : Radix.Leads 256 0 abs) where
  -- A big integer that is printed is read back, when its magnitude has no leading zero byte, its sign is
  -- not that of a negative zero, and the literal has at most as many digits as the reader takes.
  pub parse_big_int-format_big_int :
      (abs ≡ [] → negative ≡ false)
      → (s : List ℕ) (m : ℕ) → format_big_int abs negative ≡ ok s
      → count_digits s ≤ m
      → parse_big_int s m ≡ ok (record { abs = abs; negative = negative })
  parse_big_int-format_big_int sign s m printed room =
      let (text, short, some_digit) =
        format_big_int-literal abs negative s bytes leads sign printed in
      let (value, digits, shape) = be_bytes_to_decimal-number abs bytes in
      let fits : length (be_bytes_to_decimal abs) ≤ m = omega (
        arith,
        room,
        ap count_digits text,
        count_digits-signed negative (be_bytes_to_decimal abs),
        count_digits-length (be_bytes_to_decimal abs) digits,
      ) in
      rw
        (
          text,
          parse_big_int-digits negative (be_bytes_to_decimal abs) m digits some_digit fits,
          to_be_bytes-to_decimal abs bytes,
          skip_zeros-Leads abs leads,
          sign_kept abs negative sign,
        )
        refl
