-- ===== src/Pxf/BigNum/Decimals.antt =====
-- bignum.rs: the decimals that `format_decimal` prints, and what `parse_decimal` makes of them.
use protowire_rust.Prelude.{
  ℕ, ◌+◌, ◌-◌, ◌^◌, ◌≤◌, ◌<◌, List, [], ◌∷◌, ◌++◌, All, ◌≡◌, ◌≢◌, ◌∙◌, ap, length, refl, arith, ltb,
  leb, Bool, true, false, Bool-cases, ==_iff, inl, inr, ◌==◌, if◌then◌else◌, take, drop, replicate,
  length-append, length-drop, length-take, append-nil, codes,
}
use protowire_rust.Pxf.BigNum.Radix
use protowire_rust.Pxf.BigNum.Texts.{
  check_literal_digits-ok, check_literal_digits-err, count_digits-length, all_digits-decimal,
  bound_literal-ok, bound_literal-significant, significant-le, significant-zeros, significant-point,
  count_digits-point, split_point-at, split_point-none, zeros-IsDecimal, zeros-number,
  length-replicate, take-drop, take-All,
}
use protowire_rust.Pxf.BigNum.{
  ok, err, too_many_digits, count_digits, significant, decimal_digits_to_be_bytes,
  be_bytes_to_decimal, is_zero_text, parse_decimal, format_decimal, pointed, shifted, saturate,
}
use protowire_rust.Pxf.BigNum.ToBytes.{IsByte, IsDecimal, decimal_number}
use protowire_rust.Pxf.BigNum.ToDigits.{be_bytes_to_decimal-number}
use protowire_rust.Pxf.BigNum.RoundTrip.{
  signed, skip_zeros-Leads, strip_minus-signed, strip_minus-digits, count_digits-signed,
  significant-signed, nonempty, to_be_bytes_unique,
}

-- The zeros that go in front of digits, so that one stands before the point.
padding : List ℕ → ℕ → ℕ
padding digits scale = if leb (length digits) scale then scale + 1 - length digits else 0

abbrev padded : List ℕ → ℕ → List ℕ
padded digits scale = replicate (padding digits scale) b'0' ++ digits

abbrev whole : List ℕ → ℕ → List ℕ
whole digits scale = take (length (padded digits scale) - scale) (padded digits scale)

abbrev fraction : List ℕ → ℕ → List ℕ
fraction digits scale = drop (length (padded digits scale) - scale) (padded digits scale)

pointed-parts :
    (digits : List ℕ) (scale : ℕ)
    → pointed digits scale ≡ whole digits scale ++ (b'.' ∷ fraction digits scale)
unfolding pointed padding
pointed-parts digits scale = elim (Bool-cases (leb (length digits) scale)) [
  | inl short ↦ rw short
  | inr long ↦ rw long
]

length-padded :
    (digits : List ℕ) (scale : ℕ)
    → (scale < length (padded digits scale))
      × (length digits ≤ scale → length (padded digits scale) ≡ scale + 1)
unfolding padding
length-padded digits scale =
    let joined = length-append (replicate (padding digits scale) b'0') digits in
    let zeros = length-replicate (padding digits scale) in
    (ground (arith, joined, zeros), λ short. ground (arith, joined, zeros))

-- A text with a point: a digit at least before it, and `scale` digits behind it.
parse_decimal-parts :
    (negative : Bool) (xs ys : List ℕ) (m : ℕ)
    → All IsDecimal xs
    → All IsDecimal (xs ++ ys)
    → xs ≢ []
    → count_digits (xs ++ ys) ≤ m
    → parse_decimal (signed negative (xs ++ (b'.' ∷ ys))) m
      ≡ ok (record {
        unscaled = decimal_digits_to_be_bytes (xs ++ ys);
        scale = saturate (length ys);
        negative = negative;
      })
unfolding parse_decimal
parse_decimal-parts negative xs ys m before all some_digit room =
    rw
      (
        check_literal_digits-ok (signed negative (xs ++ (b'.' ∷ ys))) m (
            omega
              (arith, count_digits-signed negative (xs ++ (b'.' ∷ ys)), count_digits-point xs ys)),
        strip_minus-signed negative xs (b'.' ∷ ys) before some_digit,
        split_point-at xs ys before,
        nonempty (xs ++ ys) (λ e. some_digit (left_empty xs ys e)),
        all_digits-decimal (xs ++ ys) all,
      )
      refl
  where
    left_empty : (xs ys : List ℕ) → xs ++ ys ≡ [] → xs ≡ []
    left_empty [] ys e = refl
    left_empty (x ∷ xs) ys e = cc

-- The decimal read from digits with no point has the scale 0.
parse_decimal-whole :
    (negative : Bool) (ds : List ℕ) (m : ℕ)
    → All IsDecimal ds
    → ds ≢ []
    → length ds ≤ m
    → parse_decimal (signed negative ds) m
      ≡ ok (record { unscaled = decimal_digits_to_be_bytes ds; scale = 0; negative = negative })
unfolding parse_decimal
parse_decimal-whole negative ds m all some_digit room =
    rw
      (
        check_literal_digits-ok (signed negative ds) m
            (omega (arith, count_digits-signed negative ds, count_digits-length ds all)),
        strip_minus-digits negative ds all some_digit,
        split_point-none ds all,
        append-nil ds,
        nonempty ds some_digit,
        all_digits-decimal ds all,
      )
      refl

shifted-zero : (ds : List ℕ) → shifted ds 0 ≡ ds
unfolding shifted
shifted-zero ds = elim (Bool-cases (is_zero_text ds)) [
  | inl nought ↦ rw nought
  | inr other ↦ rw other (append-nil ds)
]

saturate-small : (n : ℕ) → n < 2 ^ 31 → saturate n ≡ n
saturate-small n h = ground arith

-- What `format_decimal` prints at a scale that is not negative, where it prints.
format_decimal-literal :
    (unscaled : List ℕ) (scale : ℕ) (negative : Bool) (s : List ℕ)
    → scale < 2 ^ 31
    → format_decimal unscaled scale negative ≡ ok s
    → s
      ≡ signed negative (
          if scale == 0
          then be_bytes_to_decimal unscaled
          else pointed (be_bytes_to_decimal unscaled) scale)
unfolding format_decimal
format_decimal-literal unscaled scale negative s small printed =
    let text = be_bytes_to_decimal unscaled in
    let positive : leb (2 ^ 31) scale ≡ false = ground arith in
    elim (Bool-cases (ltb 4096 scale)) [
      | inl large ↦ cc (rw (positive, large) at printed)
      | inr fits ↦ elim (Bool-cases (scale == 0)) [
        | inl none_after ↦ rw none_after (
            (bound_literal-ok (codes "pxf.Decimal") (signed negative text) s (
              rw (positive, fits, none_after, (==_iff scale 0).0 none_after, shifted-zero text) at
                printed)).0)
        | inr some_after ↦ rw some_after (
            (bound_literal-ok (codes "pxf.Decimal") (signed negative (pointed text scale)) s
              (rw (positive, fits, some_after) at printed)).0)
      ]
    ]

module _ (unscaled : List ℕ) (scale : ℕ) (negative : Bool) (bytes : All IsByte unscaled)
    (leads : Radix.Leads 256 0 unscaled) (small : scale < 2 ^ 31) where
  abbrev digits : List ℕ
  digits = be_bytes_to_decimal unscaled

  digits-IsDecimal : All IsDecimal digits
  digits-IsDecimal = (be_bytes_to_decimal-number unscaled bytes).1

  digits-ne-nil : digits ≢ []
  digits-ne-nil = elim (be_bytes_to_decimal-number unscaled bytes).2 [
    | inl nought ↦ λ e. cc nought
    | inr other ↦ other.0
  ]

  -- Digits of the same number give the same bytes.
  same_bytes :
      (ds : List ℕ)
      → All IsDecimal ds
      → decimal_number ds ≡ decimal_number digits
      → decimal_digits_to_be_bytes ds ≡ unscaled
  same_bytes ds all same =
      to_be_bytes_unique ds unscaled all bytes
        (same ∙ (be_bytes_to_decimal-number unscaled bytes).0)
      ∙ skip_zeros-Leads unscaled leads

  padded-IsDecimal : All IsDecimal (padded digits scale)
  padded-IsDecimal = zeros-IsDecimal (padding digits scale) digits digits-IsDecimal

  parts : whole digits scale ++ fraction digits scale ≡ padded digits scale
  parts = take-drop (length (padded digits scale) - scale) (padded digits scale)

  pointed-read :
      (m : ℕ)
      → count_digits (signed negative (pointed digits scale)) ≤ m
      → parse_decimal (signed negative (pointed digits scale)) m
        ≡ ok (record { unscaled = unscaled; scale = scale; negative = negative })
  pointed-read m room =
      let xs = whole digits scale in
      let ys = fraction digits scale in
      let n = length (padded digits scale) - scale in
      let after : length ys ≡ scale =
        omega (arith, length-drop n (padded digits scale), (length-padded digits scale).0) in
      let front : xs ≢ [] = λ e. absurd (
        omega (
          arith,
          ap length e,
          length-take n (padded digits scale),
          (length-padded digits scale).0,
        )) in
      rw
        (
          pointed-parts digits scale,
          parse_decimal-parts negative xs ys m
              (take-All IsDecimal n (padded digits scale) padded-IsDecimal)
              (rw parts padded-IsDecimal) front
              (omega (
                arith,
                room,
                count_digits-signed negative (pointed digits scale),
                ap count_digits (pointed-parts digits scale),
                count_digits-point xs ys,
              )),
          same_bytes (xs ++ ys) (rw parts padded-IsDecimal)
              (ap decimal_number parts ∙ zeros-number (padding digits scale) digits),
          after,
          saturate-small scale small,
        )
        refl

  -- A decimal that is printed at a scale that is not negative is read back with its scale and its
  -- sign, when its magnitude has no leading zero byte and the literal has as many digits as the
  -- reader takes at most.
  pub parse_decimal-format_decimal :
      (s : List ℕ) (m : ℕ)
      → format_decimal unscaled scale negative ≡ ok s
      → count_digits s ≤ m
      → parse_decimal s m ≡ ok (record { unscaled = unscaled; scale = scale; negative = negative })
  parse_decimal-format_decimal s m printed room =
      let text = format_decimal-literal unscaled scale negative s small printed in
      rw text (read (scale == 0) refl (rw text at room))
    where
      printed_text : Bool → List ℕ
      printed_text b = signed negative (if b then digits else pointed digits scale)

      read :
          (b : Bool)
          → (scale == 0) ≡ b
          → count_digits (printed_text b) ≤ m
          → parse_decimal (printed_text b) m
            ≡ ok (record { unscaled = unscaled; scale = scale; negative = negative })
      read true zero_scale count =
          rw
            (
              parse_decimal-whole negative digits m digits-IsDecimal digits-ne-nil (
                  omega (
                    arith,
                    count,
                    count_digits-signed negative digits,
                    count_digits-length digits digits-IsDecimal,
                  )),
              same_bytes digits digits-IsDecimal refl,
              (==_iff scale 0).0 zero_scale,
            )
            refl
      read false other count = pointed-read m count

-- At the scale 4096 `format_decimal` prints any decimal of at most 4096 digits, and `parse_decimal`
-- refuses what it prints, which has 4097 digits, under the default limit of 4096.
pub parse_decimal_refuses :
    (unscaled : List ℕ) (negative : Bool)
    → All IsByte unscaled
    → length (be_bytes_to_decimal unscaled) ≤ 4096
    → (s : List ℕ) × (format_decimal unscaled 4096 negative ≡ ok s)
      × (parse_decimal s 4096 ≡ err (too_many_digits 4097 4096))
unfolding format_decimal parse_decimal
parse_decimal_refuses unscaled negative bytes short =
    let ds = be_bytes_to_decimal unscaled in
    let (value, all, shape) = be_bytes_to_decimal-number unscaled bytes in
    let s = signed negative (pointed ds 4096) in
    let joined = take-drop (length (padded ds 4096) - 4096) (padded ds 4096) in
    let count : count_digits s ≡ 4097 = omega (
      arith,
      count_digits-signed negative (pointed ds 4096),
      ap count_digits (pointed-parts ds 4096),
      count_digits-point (whole ds 4096) (fraction ds 4096),
      ap count_digits joined,
      count_digits-length (padded ds 4096) (zeros-IsDecimal (padding ds 4096) ds all),
      (length-padded ds 4096).1 short,
    ) in
    let few : significant s ≤ 4096 = omega (
      arith,
      significant-signed negative (pointed ds 4096),
      ap significant (pointed-parts ds 4096),
      significant-point (whole ds 4096) (fraction ds 4096),
      ap significant joined,
      significant-zeros (padding ds 4096) ds,
      significant-le ds,
      count_digits-length ds all,
    ) in
    (
      s,
      bound_literal-significant (codes "pxf.Decimal") s few,
      rw (check_literal_digits-err s 4096 (omega (arith, count)), count) refl,
    )
