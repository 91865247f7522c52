-- ===== src/Pxf/BigNum.antt =====
-- crates/protowire-pxf/src/bignum.rs: the literals of `pxf.BigInt` and `pxf.Decimal`, and the two
-- conversions between decimal digits and big-endian bytes. `scale` is the bit pattern of an i32.
-- The digits that `be_bytes_to_decimal` pushes are ASCII, so its `expect` is left out.
use protowire_rust.Prelude.{
  ℕ, zero, suc, ◌+◌, ◌-◌, ◌*◌, ◌/◌, ◌%◌, ◌^◌, List, [], ◌∷◌, ◌++◌, Bool, true, false, not, ◌&&◌,
  ◌||◌, ltb, leb, ◌==◌, if◌then◌else◌, length, take, drop, replicate, reverse, bit_or, codes,
}
use protowire_rust.Pxf.Chars.{is_digit}
use protowire_rust.Pxf.Limits.{max_numeric_literal_digits_default}
pub mod Radix
pub mod ToBytes
pub mod ToDigits
pub mod Texts
pub mod RoundTrip
pub mod Decimals

pub record BigIntLit : Type 0 where
  pub abs : List ℕ
  pub negative : Bool

pub record DecimalLit : Type 0 where
  pub unscaled : List ℕ
  pub scale : ℕ
  pub negative : Bool

-- The messages of the source, with what each prints.
pub data NumberError : Type 0 where
  too_many_digits : ℕ → ℕ → NumberError
  invalid_big_integer : List ℕ → NumberError
  invalid_decimal : List ℕ → NumberError
  scale_too_large : ℕ → NumberError
  renders_too_long : List ℕ → ℕ → NumberError

pub data Parsed (A : Type 0) : Type 0 where
  ok : A → Parsed A
  err : NumberError → Parsed A

infixl 5 ◌>>=◌ ◌>>◌
abbrev pub ◌>>=◌ : {A B : Type 0} → Parsed A → (A → Parsed B) → Parsed B
ok a >>= f = f a
err e >>= f = err e

abbrev pub ◌>>◌ : {B : Type 0} → Parsed (Unit {0}) → Parsed B → Parsed B
m >> k = m >>= λ _. k

unfoldable pub count_digits : List ℕ → ℕ
unfolding is_digit
count_digits [] = 0
count_digits (c ∷ s) = (if is_digit c then 1 else 0) + count_digits s

unfoldable pub all_digits : List ℕ → Bool
unfolding is_digit
all_digits [] = true
all_digits (c ∷ s) = is_digit c && all_digits s

unfoldable pub check_literal_digits : List ℕ → ℕ → Parsed (Unit {0})
unfolding count_digits
check_literal_digits s max_digits =
    if leb (length s) max_digits
    then ok tt
    else if ltb max_digits (count_digits s)
    then err (too_many_digits (count_digits s) max_digits)
    else ok tt

abbrev is_empty : List ℕ → Bool
is_empty [] = true
is_empty (c ∷ s) = false

-- `s.strip_prefix('-')`: whether the sign is there, and the text without it.
unfoldable pub strip_minus : List ℕ → Bool × List ℕ
strip_minus [] = (false, [])
strip_minus (c ∷ s) = if c == b'-' then (true, s) else (false, c ∷ s)

-- `body.split_once('.')`, with "" for the second part where there is no point.
unfoldable pub split_point : List ℕ → List ℕ × List ℕ
split_point [] = ([], [])
split_point (c ∷ s) =
    let rest = split_point s in if c == b'.' then ([], s) else (c ∷ rest.0, rest.1)

-- `for limb in le.iter_mut()`, then `while carry > 0`. A u32 has at most four bytes to push.
unfoldable pub push_carry : (rounds : ℕ) → ℕ → List ℕ
push_carry zero carry = []
push_carry (suc n) carry =
    let rest = push_carry n (carry / 2 ^ 8) in if ltb 0 carry then (carry % 2 ^ 8) ∷ rest else []

unfoldable pub times_ten_plus : ℕ → List ℕ → List ℕ
unfolding push_carry
times_ten_plus carry [] = push_carry 4 carry
times_ten_plus carry (limb ∷ le) =
    let v = limb * 10 + carry in (v % 2 ^ 8) ∷ times_ten_plus (v / 2 ^ 8) le

-- `d - b'0'` is of type u8.
unfoldable pub digits_loop : List ℕ → List ℕ → List ℕ
unfolding times_ten_plus
digits_loop le [] = le
digits_loop le (d ∷ digits) = digits_loop (times_ten_plus ((d + 2 ^ 8 - b'0') % 2 ^ 8) le) digits

unfoldable pub decimal_digits_to_be_bytes : List ℕ → List ℕ
unfolding digits_loop
decimal_digits_to_be_bytes digits = reverse (digits_loop [] digits)

-- `skip_while(|&b| b == 0)`, and `while mag.first() == Some(&0) { mag.remove(0); }`.
unfoldable pub skip_zeros : List ℕ → List ℕ
skip_zeros [] = []
skip_zeros (b ∷ bs) = let rest = skip_zeros bs in if b == 0 then rest else b ∷ bs

-- One long division by ten: the quotient's bytes and the remainder.
unfoldable pub div_ten : ℕ → List ℕ → List ℕ × ℕ
div_ten rem [] = ([], rem)
div_ten rem (limb ∷ mag) =
    let v = bit_or (rem * 2 ^ 8) limb in
    let (q, r) = div_ten (v % 10) mag in ((v / 10 % 2 ^ 8) ∷ q, r)

-- The digits in the order in which they are pushed. A byte is worth less than three digits.
unfoldable pub divide_loop : (fuel : ℕ) → List ℕ → List ℕ
unfolding div_ten skip_zeros
divide_loop zero mag = []
divide_loop (suc fuel) [] = []
divide_loop (suc fuel) (b ∷ bs) =
    let (q, rem) = div_ten 0 (b ∷ bs) in (b'0' + rem) ∷ divide_loop fuel (skip_zeros q)

unfoldable pub be_bytes_to_decimal : List ℕ → List ℕ
unfolding skip_zeros divide_loop
be_bytes_to_decimal bytes =
    let mag = skip_zeros bytes in
    if is_empty mag then codes "0" else reverse (divide_loop (3 * length mag) mag)

unfoldable pub parse_big_int : List ℕ → ℕ → Parsed BigIntLit
unfolding check_literal_digits strip_minus all_digits decimal_digits_to_be_bytes
parse_big_int s max_digits = do
  check_literal_digits s max_digits
  let (negative, digits) = strip_minus s
  let abs = decimal_digits_to_be_bytes digits
  if is_empty digits || not (all_digits digits)
      then err (invalid_big_integer s)
      else ok (record { abs = abs; negative = negative && not (is_empty abs) })

abbrev pub i32_max : ℕ
i32_max = 2 ^ 31 - 1

-- `i32::try_from(n).unwrap_or(i32::MAX)`
abbrev pub saturate : ℕ → ℕ
saturate n = if leb n i32_max then n else i32_max

unfoldable pub parse_decimal : List ℕ → ℕ → Parsed DecimalLit
unfolding check_literal_digits strip_minus split_point all_digits decimal_digits_to_be_bytes
parse_decimal s max_digits = do
  check_literal_digits s max_digits
  let (negative, body) = strip_minus s
  let (int_part, frac_part) = split_point body
  let digits = int_part ++ frac_part
  if is_empty digits || not (all_digits digits)
      then err (invalid_decimal s)
      else ok (record {
        unscaled = decimal_digits_to_be_bytes digits;
        scale = saturate (length frac_part);
        negative = negative;
      })

-- The digits from the first that is no zero.
unfoldable pub significant : List ℕ → ℕ
unfolding count_digits is_digit
significant [] = 0
significant (c ∷ s) =
    let rest = significant s in if is_digit c && not (c == b'0') then 1 + count_digits s else rest

unfoldable pub bound_literal : List ℕ → List ℕ → Parsed (List ℕ)
unfolding significant
bound_literal kind literal =
    if leb (length literal) max_numeric_literal_digits_default
    then ok literal
    else if ltb max_numeric_literal_digits_default (significant literal)
    then err (renders_too_long kind (significant literal))
    else ok literal

abbrev is_zero_text : List ℕ → Bool
is_zero_text [] = false
is_zero_text (c ∷ s) = c == b'0' && is_empty s

unfoldable pub format_big_int : List ℕ → Bool → Parsed (List ℕ)
unfolding be_bytes_to_decimal bound_literal
format_big_int abs negative =
    let digits = be_bytes_to_decimal abs in
    bound_literal (codes "pxf.BigInt")
      (if negative && not (is_zero_text digits) then b'-' ∷ digits else digits)

abbrev pub is_negative : ℕ → Bool
is_negative scale = leb (2 ^ 31) scale

abbrev pub unsigned_abs : ℕ → ℕ
unsigned_abs scale = if is_negative scale then 2 ^ 32 - scale else scale

-- Lines 142 to 149, without the sign: nothing after a point.
unfoldable pub shifted : List ℕ → ℕ → List ℕ
shifted digits zeros = if is_zero_text digits then digits else digits ++ replicate zeros b'0'

-- Lines 150 to 160, without the sign: `scale` digits after the point, and one before it.
unfoldable pub pointed : List ℕ → ℕ → List ℕ
pointed digits scale =
    let padded =
      if leb (length digits) scale
      then replicate (scale + 1 - length digits) b'0' ++ digits
      else digits in
    take (length padded - scale) padded ++ (b'.' ∷ drop (length padded - scale) padded)

unfoldable pub format_decimal : List ℕ → ℕ → Bool → Parsed (List ℕ)
unfolding be_bytes_to_decimal shifted pointed bound_literal
format_decimal unscaled scale negative =
    let digits = be_bytes_to_decimal unscaled in
    let body =
      if is_negative scale || scale == 0
      then shifted digits (unsigned_abs scale)
      else pointed digits scale in
    if ltb max_numeric_literal_digits_default (unsigned_abs scale)
    then err (scale_too_large scale)
    else bound_literal (codes "pxf.Decimal") (if negative then b'-' ∷ body else body)
