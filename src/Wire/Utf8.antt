-- ===== src/Wire/Utf8.antt =====
-- Rust's `String::from_utf8` check: a text is its list of bytes, and it is well-formed UTF-8 as
-- the Unicode standard's table of byte sequences has it.
use protowire_rust.Prelude.{
  ℕ, zero, suc, List, [], ◌∷◌, Bool, true, false, ◌&&◌, ◌||◌, leb, ltb, if◌then◌else◌, ◌==◌,
}

-- A byte that begins a sequence: 0x00 to 0x7f, 0xc2 to 0xf4.
abbrev pub is_lead : ℕ → Bool
is_lead b = ltb b 0x80 || leb 0xc2 b && leb b 0xf4

-- How many bytes follow the lead, and the range of the first of them.
abbrev pub following : ℕ → ℕ
following b = if ltb b 0x80 then 0 else if ltb b 0xe0 then 1 else if ltb b 0xf0 then 2 else 3

abbrev pub second_from : ℕ → ℕ
second_from b = if b == 0xe0 then 0xa0 else if b == 0xf0 then 0x90 else 0x80

abbrev pub second_to : ℕ → ℕ
second_to b = if b == 0xed then 0x9f else if b == 0xf4 then 0x8f else 0xbf

-- `need` bytes of the current sequence are still to come, the next of them in `from` to `to`.
unfoldable pub utf8_loop : ℕ → ℕ → ℕ → List ℕ → Bool
utf8_loop zero from to [] = true
utf8_loop (suc need) from to [] = false
utf8_loop zero from to (b ∷ bs) =
    is_lead b && utf8_loop (following b) (second_from b) (second_to b) bs
utf8_loop (suc need) from to (b ∷ bs) = leb from b && leb b to && utf8_loop need 0x80 0xbf bs

abbrev pub is_utf8 : List ℕ → Bool
is_utf8 bs = utf8_loop 0 0x80 0xbf bs
