-- ===== src/Wire/Numbers.antt =====
-- The other numbers of wire.rs: zigzag, fixed width and tags, read back from what is written.
use protowire_rust.Prelude.{
  ℕ, ◌+◌, ◌-◌, ◌*◌, ◌/◌, ◌%◌, ◌^◌, ◌≤◌, ◌<◌, bit_and, bit_xor, List, ◌++◌, ltb, if◌then◌else◌,
  length, drop, ◌≡◌, refl, ap, arith, some,
}
use protowire_rust.Prelude.Bits.{bit_and_mask, disjoint-bit_or, bit_xor_ones, bit_xor-zero}
use protowire_rust.Wire.Types.{ok, WireType, wire_code, from_u8}
use protowire_rust.Wire.Writer
use protowire_rust.Wire.Writer.{Writer}
use protowire_rust.Wire.Reader
use protowire_rust.Wire.Reader.{Reader}
use protowire_rust.Wire.Varint.{varint_bytes, varint_reads, varint-groups, length-varint_bytes}

-- The number that zigzag writes for a signed 64-bit integer given by its bit pattern: 2 n for n, and
-- 2 n - 1 for - n.
pub zigzag_bits-eq :
    (v : ℕ)
    → v < 2 ^ 64
    → Writer.zigzag_bits 64 v ≡ (if ltb v (2 ^ 63) then 2 * v else 2 * (2 ^ 64 - v) - 1)
unfolding Writer.zigzag_bits
zigzag_bits-eq v h = ground (arith, bit_xor-zero (v * 2 % 2 ^ 64), bit_xor_ones 64 (v * 2 % 2 ^ 64))

zigzag_bits-eq32 :
    (v : ℕ)
    → v < 2 ^ 32
    → Writer.zigzag_bits 32 v ≡ (if ltb v (2 ^ 31) then 2 * v else 2 * (2 ^ 32 - v) - 1)
unfolding Writer.zigzag_bits
zigzag_bits-eq32 v h =
    ground (arith, bit_xor-zero (v * 2 % 2 ^ 32), bit_xor_ones 32 (v * 2 % 2 ^ 32))

pub unzigzag-zigzag32 : (v : ℕ) → v < 2 ^ 32 → Reader.unzigzag_bits 32 (Writer.zigzag_bits 32 v) ≡ v
unfolding Reader.unzigzag_bits
unzigzag-zigzag32 v h = rw (zigzag_bits-eq32 v h) (
    ground (
      arith,
      bit_and_mask 1 (2 * v),
      bit_and_mask 1 (2 * (2 ^ 32 - v) - 1),
      bit_xor-zero v,
      bit_xor_ones 32 (2 ^ 32 - v - 1),
      ap (λ (t : ℕ). bit_xor t (2 ^ 32 - 1)) (halve v),
    ))
  where
    halve : (v : ℕ) → (2 * (2 ^ 32 - v) - 1) / 2 ≡ 2 ^ 32 - v - 1
    halve v = omega arith

pub unzigzag-zigzag64 : (v : ℕ) → v < 2 ^ 64 → Reader.unzigzag_bits 64 (Writer.zigzag_bits 64 v) ≡ v
unfolding Reader.unzigzag_bits
unzigzag-zigzag64 v h = rw (zigzag_bits-eq v h) (
    ground (
      arith,
      bit_and_mask 1 (2 * v),
      bit_and_mask 1 (2 * (2 ^ 64 - v) - 1),
      bit_xor-zero v,
      bit_xor_ones 64 (2 ^ 64 - v - 1),
      ap (λ (t : ℕ). bit_xor t (2 ^ 64 - 1)) (halve v),
    ))
  where
    halve : (v : ℕ) → (2 * (2 ^ 64 - v) - 1) / 2 ≡ 2 ^ 64 - v - 1
    halve v = omega arith

-- A tag: the field number above three bits of wire type.
unfoldable pub tag_bytes : ℕ → WireType → List ℕ
tag_bytes n wt = varint_bytes (n * 2 ^ 3 + wire_code wt)

abbrev pub IsFieldNumber : ℕ → Type 0
IsFieldNumber n = (1 ≤ n) × (n ≤ 0x1fff_ffff)

wire_code-lt : (wt : WireType) → wire_code wt < 8
wire_code-lt WireType.varint = omega arith
wire_code-lt WireType.fixed64 = omega arith
wire_code-lt WireType.length_delimited = omega arith
wire_code-lt WireType.start_group = omega arith
wire_code-lt WireType.end_group = omega arith
wire_code-lt WireType.fixed32 = omega arith

from_u8-wire_code : (wt : WireType) → from_u8 (wire_code wt) ≡ ok wt
unfolding from_u8
from_u8-wire_code WireType.varint = refl
from_u8-wire_code WireType.fixed64 = refl
from_u8-wire_code WireType.length_delimited = refl
from_u8-wire_code WireType.start_group = refl
from_u8-wire_code WireType.end_group = refl
from_u8-wire_code WireType.fixed32 = refl

pub tag_writes :
    (n : ℕ) (wt : WireType) (w : Writer)
    → IsFieldNumber n
    → Writer.tag n wt w ≡ some (record w { buf = w.buf ++ tag_bytes n wt })
unfolding Writer.tag tag_bytes
tag_writes n wt w h = ground (
  arith,
  disjoint-bit_or 3 n (wire_code wt) (wire_code-lt wt),
  wire_code-lt wt,
  varint-groups (n * 2 ^ 3 + wire_code wt) w,
)

pub tag_reads :
    (n : ℕ) (wt : WireType) (r : Reader) (rest : List ℕ)
    → IsFieldNumber n
    → drop r.pos r.bytes_in ≡ tag_bytes n wt ++ rest
    → Reader.tag r ≡ ok ((n, wt), record r { pos = r.pos + length (tag_bytes n wt) })
unfolding Reader.tag tag_bytes
tag_reads n wt r rest h ahead =
    let t = n * 2 ^ 3 + wire_code wt in
    let code : bit_and t 0x7 ≡ wire_code wt = omega (arith, bit_and_mask 3 t, wire_code-lt wt) in
    rw (varint_reads t r rest (omega (arith, wire_code-lt wt)) ahead, code, from_u8-wire_code wt)
      (ground (arith, wire_code-lt wt))

pub zigzag_bits-lt : (v : ℕ) → v < 2 ^ 64 → Writer.zigzag_bits 64 v < 2 ^ 64
zigzag_bits-lt v h = ground (arith, zigzag_bits-eq v h)

pub zigzag_bits-lt32 : (v : ℕ) → v < 2 ^ 32 → Writer.zigzag_bits 32 v < 2 ^ 32
zigzag_bits-lt32 v h = ground (arith, zigzag_bits-eq32 v h)

pub one-le-length-tag_bytes : (n : ℕ) (wt : WireType) → 1 ≤ length (tag_bytes n wt)
unfolding tag_bytes
one-le-length-tag_bytes n wt = (length-varint_bytes (n * 2 ^ 3 + wire_code wt)).0
