-- ===== src/Pxf/Chars.antt =====
-- crates/protowire-pxf/src/lexer.rs, lines 736 to 804: classes of bytes, digits, and the UTF-8
-- encoding of a code point.
use protowire_rust.Prelude.{
  ℕ, ◌+◌, ◌-◌, ◌/◌, ◌%◌, ◌^◌, bit_and, bit_or, List, [], ◌∷◌, Bool, not, ◌&&◌, ◌||◌, Option, none,
  some, leb, ◌==◌, if◌then◌else◌,
}

unfoldable pub is_digit : ℕ → Bool
is_digit ch = leb b'0' ch && leb ch b'9'

-- `is_ascii_lowercase`, also as the source's `is_lower_alpha`
unfoldable pub is_lower_alpha : ℕ → Bool
is_lower_alpha ch = leb b'a' ch && leb ch b'z'

-- `is_ascii_alphabetic`
abbrev pub is_alphabetic : ℕ → Bool
is_alphabetic ch = leb b'a' ch && leb ch b'z' || leb b'A' ch && leb ch b'Z'

unfoldable pub is_ident_start : ℕ → Bool
is_ident_start ch = is_alphabetic ch || ch == b'_'

unfoldable pub is_ident_part : ℕ → Bool
unfolding is_ident_start is_digit
is_ident_part ch = is_ident_start ch || is_digit ch || ch == b'.'

unfoldable pub is_duration_unit : ℕ → Bool
is_duration_unit ch = ch == b'h' || ch == b'm' || ch == b's' || ch == b'n' || ch == b'u'

unfoldable pub hex_val : ℕ → Option ℕ
hex_val ch =
    if leb b'0' ch && leb ch b'9'
    then some (ch - b'0')
    else if leb b'a' ch && leb ch b'f'
    then some (ch - b'a' + 10)
    else if leb b'A' ch && leb ch b'F'
    then some (ch - b'A' + 10)
    else none

unfoldable pub oct_val : ℕ → Option ℕ
oct_val ch = if leb b'0' ch && leb ch b'7' then some (ch - b'0') else none

unfoldable pub valid_rune : ℕ → Option ℕ
valid_rune r = if leb r 0x10_ffff && not (leb 0xd800 r && leb r 0xdfff) then some r else none

-- The bytes that the source pushes to `out`.
unfoldable pub encode_rune : ℕ → List ℕ
encode_rune r =
    if leb r 0x7f
    then (r % 256) ∷ []
    else if leb r 0x7ff
    then bit_or 0xc0 (r / 2 ^ 6 % 256) ∷ bit_or 0x80 (bit_and r 0x3f) ∷ []
    else if leb r 0xffff
    then bit_or 0xe0 (r / 2 ^ 12 % 256)
      ∷ bit_or 0x80 (bit_and (r / 2 ^ 6) 0x3f)
      ∷ bit_or 0x80 (bit_and r 0x3f)
      ∷ []
    else bit_or 0xf0 (r / 2 ^ 18 % 256)
      ∷ bit_or 0x80 (bit_and (r / 2 ^ 12) 0x3f)
      ∷ bit_or 0x80 (bit_and (r / 2 ^ 6) 0x3f)
      ∷ bit_or 0x80 (bit_and r 0x3f)
      ∷ []
