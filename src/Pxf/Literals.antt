-- ===== src/Pxf/Literals.antt =====
-- crates/protowire-pxf/src/lexer.rs: the checks of base64, timestamp and duration literals.
use protowire_rust.Prelude.{
  ℕ, zero, suc, ◌+◌, ◌-◌, ◌*◌, ◌%◌, List, [], ◌∷◌, reverse, Bool, true, false, not, ◌&&◌, ◌||◌,
  Option, none, some, ltb, leb, ◌==◌, if◌then◌else◌, length, get_or, take, drop,
}
use protowire_rust.Pxf.Chars.{is_digit, is_alphabetic}

-- `all` of an iterator over bytes
unfoldable pub all_bytes : (ℕ → Bool) → List ℕ → Bool
all_bytes test [] = true
all_bytes test (b ∷ bs) = test b && all_bytes test bs

-- How many `=` the source takes off the end, at most `pad` of them: on the reversed bytes.
unfoldable pub trailing_pad : ℕ → List ℕ → ℕ
trailing_pad zero bs = 0
trailing_pad (suc pad) [] = 0
trailing_pad (suc pad) (b ∷ bs) = if b == b'=' then suc (trailing_pad pad bs) else 0

unfoldable pub is_valid_base64 : List ℕ → Bool
unfolding all_bytes trailing_pad is_digit
is_valid_base64 s =
    let pad = trailing_pad 2 (reverse s) in
    let body = take (length s - pad) s in
    if length s == 0
    then true
    else if not (all_bytes (λ b. is_alphabetic b || is_digit b || b == b'+' || b == b'/') body)
    then false
    else if pad == 0
    then not (length s % 4 == 1)
    else length s % 4 == 0

-- u32 arithmetic does not overflow on the four digits at most that it is given.
unfoldable pub parse_u32_loop : ℕ → List ℕ → ℕ
parse_u32_loop n [] = n
parse_u32_loop n (b ∷ bs) = parse_u32_loop (n * 10 + (b - b'0')) bs

abbrev pub parse_u32 : List ℕ → ℕ
parse_u32 bs = parse_u32_loop 0 bs

unfoldable pub is_leap_year : ℕ → Bool
is_leap_year y = y % 4 == 0 && not (y % 100 == 0) || y % 400 == 0

unfoldable pub days_in_month : ℕ → ℕ → ℕ
unfolding is_leap_year
days_in_month y m =
    if m == 1 || m == 3 || m == 5 || m == 7 || m == 8 || m == 10 || m == 12
    then 31
    else if m == 4 || m == 6 || m == 9 || m == 11
    then 30
    else if m == 2
    then (if is_leap_year y then 29 else 28)
    else 0

-- `bytes[i]`, for an index in range, and `bytes[i..j]`
abbrev pub byte_at : List ℕ → ℕ → ℕ
byte_at bs i = get_or bs i 0

abbrev pub range : List ℕ → ℕ → ℕ → List ℕ
range bs i j = take (j - i) (drop i bs)

-- The shape `dddd-dd-ddTdd:dd:dd` of the first nineteen bytes.
unfoldable pub has_timestamp_shape : List ℕ → Bool
unfolding all_bytes is_digit
has_timestamp_shape bs =
    all_bytes is_digit (range bs 0 4)
    && byte_at bs 4 == b'-'
    && all_bytes is_digit (range bs 5 7)
    && byte_at bs 7 == b'-'
    && all_bytes is_digit (range bs 8 10)
    && (byte_at bs 10 == b'T' || byte_at bs 10 == b't')
    && all_bytes is_digit (range bs 11 13)
    && byte_at bs 13 == b':'
    && all_bytes is_digit (range bs 14 16)
    && byte_at bs 16 == b':'
    && all_bytes is_digit (range bs 17 19)

unfoldable pub has_calendar_fields : List ℕ → Bool
unfolding days_in_month parse_u32_loop
has_calendar_fields bs =
    let year = parse_u32 (range bs 0 4) in
    let month = parse_u32 (range bs 5 7) in
    let day = parse_u32 (range bs 8 10) in
    leb 1 month
    && leb month 12
    && leb 1 day
    && leb day (days_in_month year month)
    && not (ltb 23 (parse_u32 (range bs 11 13)))
    && not (ltb 59 (parse_u32 (range bs 14 16)))
    && not (ltb 60 (parse_u32 (range bs 17 19)))

-- The bytes behind a leading run of digits, and whether there was one.
unfoldable pub skip_digits : List ℕ → List ℕ
unfolding is_digit
skip_digits [] = []
skip_digits (b ∷ bs) = if is_digit b then skip_digits bs else b ∷ bs

unfoldable pub begins_with_digit : List ℕ → Bool
unfolding is_digit
begins_with_digit [] = false
begins_with_digit (b ∷ bs) = is_digit b

-- From a `.` on: the bytes behind a fraction, `none` for a fraction with no digit.
unfoldable pub skip_fraction : List ℕ → Option (List ℕ)
unfolding skip_digits begins_with_digit
skip_fraction [] = some []
skip_fraction (b ∷ bs) =
    if b == b'.'
    then (if begins_with_digit bs then some (skip_digits bs) else none)
    else some (b ∷ bs)

-- The zone that ends a timestamp: `Z`, or `+hh:mm`.
unfoldable pub is_zone : List ℕ → Bool
unfolding all_bytes is_digit parse_u32_loop
is_zone [] = false
is_zone (b ∷ bs) =
    if b == b'Z' || b == b'z'
    then length bs == 0
    else if b == b'+' || b == b'-'
    then length bs == 5
      && all_bytes is_digit (range bs 0 2)
      && byte_at bs 2 == b':'
      && all_bytes is_digit (range bs 3 5)
      && not (ltb 23 (parse_u32 (range bs 0 2)))
      && not (ltb 59 (parse_u32 (range bs 3 5)))
    else false

unfoldable pub is_valid_rfc3339 : List ℕ → Bool
unfolding has_timestamp_shape has_calendar_fields skip_fraction is_zone
is_valid_rfc3339 bs =
    if ltb (length bs) 20
    then false
    else if not (has_timestamp_shape bs)
    then false
    else if not (has_calendar_fields bs)
    then false
    else elim (skip_fraction (drop 19 bs)) [ none ↦ false | some rest ↦ is_zone rest ]

-- The length of the unit at the front; 0 where the source returns false.
unfoldable pub unit_length : List ℕ → ℕ
unit_length [] = 0
unit_length (b ∷ bs) =
    let next_is = λ (c : ℕ). ltb 0 (length bs) && get_or bs 0 0 == c in
    if b == b'n' && next_is b's'
    then 2
    else if b == b'u' && next_is b's'
    then 2
    else if b == b'm' && next_is b's'
    then 2
    else if b == 0xc2 && next_is 0xb5 && ltb 1 (length bs) && get_or bs 1 0 == b's'
    then 3
    else if b == b's' || b == b'm' || b == b'h'
    then 1
    else 0

-- The loop over segments; every one takes a byte at least, so `length` rounds are enough.
unfoldable pub duration_loop : (fuel : ℕ) → (groups : ℕ) → List ℕ → Bool
unfolding begins_with_digit skip_digits skip_fraction unit_length
duration_loop fuel groups [] = ltb 0 groups
duration_loop zero groups (b ∷ bs) = false
duration_loop (suc fuel) groups (b ∷ bs) =
    if not (begins_with_digit (b ∷ bs))
    then false
    else elim (skip_fraction (skip_digits (b ∷ bs))) [
      | none ↦ false
      | some rest ↦ elim (unit_length rest) [
        | zero ↦ false
        | suc n ↦ duration_loop fuel (groups + 1) (drop (suc n) rest)
      ]
    ]

unfoldable pub strip_sign : List ℕ → List ℕ
strip_sign [] = []
strip_sign (b ∷ bs) = if b == b'-' || b == b'+' then bs else b ∷ bs

unfoldable pub is_valid_go_duration : List ℕ → Bool
unfolding duration_loop strip_sign
is_valid_go_duration bs =
    let body = strip_sign bs in
    if length bs == 0
    then false
    else if length body == 0
    then false
    else duration_loop (length bs) 0 body
