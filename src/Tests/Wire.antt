-- ===== src/Tests/Wire.antt =====
-- Tests of crates/protowire-pb/src/wire.rs.
use protowire_rust.Prelude.{
  ℕ, ◌+◌, ◌-◌, ◌*◌, if◌then◌else◌, ltb, ◌≤◌, ◌<◌, ◌^◌, List, [], ◌∷◌, ◌++◌, length, true, false,
  some, ◌≡◌, refl, codes, arith,
}
use protowire_rust.Wire.Types.{
  Limits, default_limits, Error, Result, ok, err, WireType, varint_too_long, truncated_varint,
  truncated_length_delim, unknown_wire_type,
}
use protowire_rust.Wire.Utf8.{is_utf8, utf8_loop}
use protowire_rust.Wire.Writer
use protowire_rust.Wire.Writer.{Writer}
use protowire_rust.Wire.Reader
use protowire_rust.Wire.Reader.{Reader}
use protowire_rust.Wire.Varint.{varint_bytes}
use protowire_rust.Wire.Bounds.{Forward, varint_bounds, skip_bounds}
use protowire_rust.Wire.Numbers.{zigzag_bits-eq}
use protowire_rust.Wire.Fields.{delimited}
use protowire_rust.Wire.RoundTrip.{
  ReadsBack, varint-varint, zigzag32-zigzag32, zigzag64-zigzag64, fixed32-fixed32, fixed64-fixed64,
  bytes-bytes, string-string, tag-tag,
}
use native.Mathlib.Decide.{dec_le}

abbrev reading : List ℕ → Reader
reading d = record { bytes_in = d; pos = 0; depth = 0; limits = default_limits }

abbrev blank : Writer
blank = record { buf = 7 ∷ []; depth = 0; max_depth = 100; exceeded = false }

writes_300 : (Writer.varint 300 blank).buf ≡ 7 ∷ 0xac ∷ 0x02 ∷ []
unfolding Writer.varint dec_le
writes_300 = refl

writes_minus_one : length (Writer.varint_i32 (2 ^ 32 - 1) blank).buf ≡ 11
unfolding Writer.varint_i32 dec_le
writes_minus_one = refl

reads_300 :
    Reader.varint (reading (0xac ∷ 0x02 ∷ 9 ∷ []))
    ≡ ok (300, record (reading (0xac ∷ 0x02 ∷ 9 ∷ [])) { pos = 2 })
unfolding Reader.varint
reads_300 = refl

reads_cut : Reader.varint (reading (0xac ∷ [])) ≡ err truncated_varint
unfolding Reader.varint
reads_cut = refl

reads_too_long :
    Reader.varint
      (reading (0xff ∷ 0xff ∷ 0xff ∷ 0xff ∷ 0xff ∷ 0xff ∷ 0xff ∷ 0xff ∷ 0xff ∷ 0xff ∷ 1 ∷ []))
    ≡ err varint_too_long
unfolding Reader.varint
reads_too_long = refl

-- A length of 2 ^ 64 - 1 does not wrap round.
reads_huge_length :
    Reader.bytes
      (reading (0xff ∷ 0xff ∷ 0xff ∷ 0xff ∷ 0xff ∷ 0xff ∷ 0xff ∷ 0xff ∷ 0xff ∷ 1 ∷ 5 ∷ []))
    ≡ err truncated_length_delim
unfolding Reader.bytes Reader.varint Reader.read_length
reads_huge_length = refl

bad_wire_type : Reader.tag (reading (0x0f ∷ [])) ≡ err (unknown_wire_type 7)
unfolding Reader.tag Reader.varint protowire_rust.Wire.Types.from_u8
bad_wire_type = refl

utf8_accepts : is_utf8 (0xe2 ∷ 0x82 ∷ 0xac ∷ 0x24 ∷ []) ≡ true
unfolding utf8_loop
utf8_accepts = refl

utf8_refuses : is_utf8 (0xed ∷ 0xa0 ∷ 0x80 ∷ []) ≡ false
unfolding utf8_loop
utf8_refuses = refl

abbrev at_end_of_blank : Reader
at_end_of_blank = reading []

varint-varint_example :
    ReadsBack Reader.varint 300 blank (Writer.varint 300 blank) at_end_of_blank (9 ∷ [])
varint-varint_example = varint-varint 300 blank at_end_of_blank (9 ∷ []) (omega arith)

zigzag32-zigzag32_example :
    ReadsBack Reader.zigzag32 5 blank (Writer.zigzag32 5 blank) at_end_of_blank (9 ∷ [])
zigzag32-zigzag32_example = zigzag32-zigzag32 5 blank at_end_of_blank (9 ∷ []) (omega arith)

zigzag64-zigzag64_example :
    ReadsBack Reader.zigzag64 5 blank (Writer.zigzag64 5 blank) at_end_of_blank (9 ∷ [])
zigzag64-zigzag64_example = zigzag64-zigzag64 5 blank at_end_of_blank (9 ∷ []) (omega arith)

fixed32-fixed32_example :
    ReadsBack Reader.fixed32 258 blank (Writer.fixed32 258 blank) at_end_of_blank (9 ∷ [])
    × ReadsBack Reader.float 258 blank (Writer.float 258 blank) at_end_of_blank (9 ∷ [])
fixed32-fixed32_example = fixed32-fixed32 258 blank at_end_of_blank (9 ∷ []) (omega arith)

fixed64-fixed64_example :
    ReadsBack Reader.fixed64 258 blank (Writer.fixed64 258 blank) at_end_of_blank (9 ∷ [])
    × ReadsBack Reader.double 258 blank (Writer.double 258 blank) at_end_of_blank (9 ∷ [])
fixed64-fixed64_example = fixed64-fixed64 258 blank at_end_of_blank (9 ∷ []) (omega arith)

delimited_ok : length (blank.buf ++ delimited (codes "ok")) ≡ 4
unfolding delimited varint_bytes
delimited_ok = refl

bytes-bytes_example :
    ReadsBack Reader.bytes
      (codes "ok")
      blank
      (Writer.bytes (codes "ok") blank)
      at_end_of_blank
      (9 ∷ [])
bytes-bytes_example =
    bytes-bytes (codes "ok") blank at_end_of_blank (9 ∷ []) (omega (arith, delimited_ok))

string-string_example :
    ReadsBack Reader.string
      (codes "ok")
      blank
      (Writer.string (codes "ok") blank)
      at_end_of_blank
      (9 ∷ [])
unfolding utf8_loop
string-string_example =
    string-string (codes "ok") blank at_end_of_blank (9 ∷ []) (omega (arith, delimited_ok)) refl

tag-tag_example :
    (w : Writer) × (Writer.tag 3 WireType.fixed32 blank ≡ some w)
    × ReadsBack Reader.tag (3, WireType.fixed32) blank w at_end_of_blank (9 ∷ [])
tag-tag_example =
    tag-tag 3 WireType.fixed32 blank at_end_of_blank (9 ∷ []) (omega arith, omega arith)

zigzag_bits-eq_example :
    Writer.zigzag_bits 64 (2 ^ 64 - 3)
    ≡ (if ltb (2 ^ 64 - 3) (2 ^ 63) then 2 * (2 ^ 64 - 3) else 2 * (2 ^ 64 - (2 ^ 64 - 3)) - 1)
zigzag_bits-eq_example = zigzag_bits-eq (2 ^ 64 - 3) (omega arith)

varint_bounds_example :
    (300 < 2 ^ 64)
    × (2 ≤ 0 + 10)
    × Forward 1
        (reading (0xac ∷ 0x02 ∷ 9 ∷ []))
        (record (reading (0xac ∷ 0x02 ∷ 9 ∷ [])) { pos = 2 })
varint_bounds_example = varint_bounds (reading (0xac ∷ 0x02 ∷ 9 ∷ [])) _ 300 reads_300

skips :
    Reader.skip WireType.length_delimited (reading (2 ∷ 8 ∷ 9 ∷ 1 ∷ []))
    ≡ ok (record (reading (2 ∷ 8 ∷ 9 ∷ 1 ∷ [])) { pos = 3 })
unfolding Reader.skip Reader.varint
skips = refl

skip_bounds_example :
    Forward 1 (reading (2 ∷ 8 ∷ 9 ∷ 1 ∷ [])) (record (reading (2 ∷ 8 ∷ 9 ∷ 1 ∷ [])) { pos = 3 })
skip_bounds_example = skip_bounds WireType.length_delimited (reading (2 ∷ 8 ∷ 9 ∷ 1 ∷ [])) _ skips
