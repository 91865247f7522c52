-- ===== src/Wire/Reader.antt =====
-- crates/protowire-pb/src/wire.rs, lines 293 to 519: `Reader`. A method that takes `&mut self` and
-- may fail returns the value with the reader it leaves; what it leaves on an error is not kept,
-- since every caller passes an error on.
use protowire_rust.Prelude.{
  ℕ, zero, suc, ◌+◌, ◌-◌, ◌*◌, ◌/◌, ◌%◌, ◌^◌, bit_and, bit_or, bit_xor, List, [], ◌∷◌, ◌++◌, Bool,
  none, some, leb, ltb, ◌==◌, if◌then◌else◌, length, get_or, take, drop,
}
use protowire_rust.Wire.Types.{
  Limits, default_limits, Error, truncated_varint, varint_too_long, truncated_fixed32,
  truncated_fixed64, truncated_length_delim, invalid_tag, group_not_supported, invalid_utf8,
  repeated_count_exceeded, Result, ok, err, ◌>>=◌, WireType, from_u8,
}
use protowire_rust.Wire.Utf8.{is_utf8}
use protowire_rust.Wire.Bytes.{from_le_bytes, neg_bits, usize_try_from, checked_add}

pub record Reader : Type 0 where
  pub bytes_in : List ℕ
  pub pos : ℕ
  pub depth : ℕ
  pub limits : Limits

unfoldable pub with_limits : List ℕ → Limits → Reader
with_limits d l = record { bytes_in = d; pos = 0; depth = 0; limits = l }

unfoldable pub new : List ℕ → Reader
unfolding with_limits
new d = with_limits d default_limits

unfoldable pub check_repeated : ℕ → Reader → Result (Unit {0})
check_repeated len r =
    if leb r.limits.max_repeated_count len
    then err (repeated_count_exceeded r.limits.max_repeated_count)
    else ok tt

-- The list with the element added at its end.
unfoldable pub push_element : {A : Type 0} → List A → A → Reader → Result (List A)
unfolding check_repeated
push_element list elem r = do _ ← check_repeated (length list) r; ok (list ++ (elem ∷ []))

abbrev pub eof : Reader → Bool
eof r = leb (length r.bytes_in) r.pos

abbrev pub remaining : Reader → ℕ
remaining r = length r.bytes_in - r.pos

-- The loop of `varint` from round i = 10 - rounds on.
unfoldable pub varint_loop : ℕ → (result shift : ℕ) → Reader → Result (ℕ × Reader)
varint_loop zero result shift r = err varint_too_long
varint_loop (suc rounds) result shift r =
    let byte = get_or r.bytes_in r.pos 0 in
    let r' = record r { pos = r.pos + 1 } in
    let result' = bit_or result (bit_and byte 0x7f * 2 ^ shift % 2 ^ 64) in
    let more = varint_loop rounds result' (shift + 7) r' in
    if leb (length r.bytes_in) r.pos
    then err truncated_varint
    else if bit_and byte 0x80 == 0
    then ok (result', r')
    else if rounds == 0
    then err varint_too_long
    else more

unfoldable pub varint : Reader → Result (ℕ × Reader)
unfolding varint_loop
varint r = varint_loop 10 0 0 r

-- `((u >> 1) as i32) ^ -((u & 1) as i32)`
unfoldable pub unzigzag_bits : ℕ → ℕ → ℕ
unzigzag_bits w u = bit_xor (u / 2) (neg_bits w (bit_and u 1))

unfoldable pub zigzag32 : Reader → Result (ℕ × Reader)
unfolding unzigzag_bits
zigzag32 r = do (u, r') ← varint r; ok (unzigzag_bits 32 (u % 2 ^ 32), r')

unfoldable pub zigzag64 : Reader → Result (ℕ × Reader)
unfolding unzigzag_bits
zigzag64 r = do (u, r') ← varint r; ok (unzigzag_bits 64 u, r')

-- `&data[pos..pos + n]`, for a range that lies inside
abbrev pub slice : List ℕ → ℕ → ℕ → List ℕ
slice d pos n = take n (drop pos d)

unfoldable pub fixed32 : Reader → Result (ℕ × Reader)
fixed32 r =
    if ltb (length r.bytes_in) (r.pos + 4)
    then err truncated_fixed32
    else ok (from_le_bytes (slice r.bytes_in r.pos 4), record r { pos = r.pos + 4 })

unfoldable pub fixed64 : Reader → Result (ℕ × Reader)
fixed64 r =
    if ltb (length r.bytes_in) (r.pos + 8)
    then err truncated_fixed64
    else ok (from_le_bytes (slice r.bytes_in r.pos 8), record r { pos = r.pos + 8 })

-- `f32::from_bits` and `f64::from_bits`: a float is its bit pattern.
unfoldable pub float : Reader → Result (ℕ × Reader)
unfolding fixed32
float r = fixed32 r

unfoldable pub double : Reader → Result (ℕ × Reader)
unfolding fixed64
double r = fixed64 r

-- `usize::try_from(len)`, `checked_add` and the bound check, once `varint` has read the length.
unfoldable pub fit_length : Error → ℕ → Reader → Result ℕ
fit_length e len r = elim (usize_try_from len) [
  | none ↦ err e
  | some n ↦ elim (checked_add r.pos n) [
    | none ↦ err e
    | some end ↦ if ltb (length r.bytes_in) end then err e else ok n
  ]
]

unfoldable pub read_length : Reader → Result (ℕ × Reader)
unfolding fit_length
read_length r = do (len, r') ← varint r; n ← fit_length truncated_length_delim len r'; ok (n, r')

unfoldable pub bytes_view : Reader → Result (List ℕ × Reader)
unfolding read_length
bytes_view r = do
  (len, r') ← read_length r
  ok (slice r'.bytes_in r'.pos len, record r' { pos = r'.pos + len })

-- A copy is the same list.
unfoldable pub bytes : Reader → Result (List ℕ × Reader)
unfolding bytes_view
bytes r = bytes_view r

unfoldable pub string : Reader → Result (List ℕ × Reader)
unfolding bytes_view
string r = do (v, r') ← bytes_view r; if is_utf8 v then ok (v, r') else err invalid_utf8

-- The sub-reader over a packed field's payload, and the reader after it.
unfoldable pub packed : Reader → Result (Reader × Reader)
unfolding bytes_view
packed r = do
  (view, r') ← bytes_view r
  ok (record { bytes_in = view; pos = 0; depth = r'.depth; limits = r'.limits }, r')

unfoldable pub tag : Reader → Result ((ℕ × WireType) × Reader)
tag r = do
  (t, r') ← varint r
  wire_type ← from_u8 (bit_and t 0x7)
  let field_number = t / 2 ^ 3 % 2 ^ 32
  if field_number == 0 then err (invalid_tag r'.pos) else ok ((field_number, wire_type), r')

unfoldable pub skip : WireType → Reader → Result Reader
unfolding read_length
skip WireType.varint r = do (_, r') ← varint r; ok r'
skip WireType.fixed64 r =
    if ltb (length r.bytes_in) (r.pos + 8)
    then err truncated_fixed64
    else ok (record r { pos = r.pos + 8 })
skip WireType.length_delimited r = do
  (len, r') ← read_length r
  ok (record r' { pos = r'.pos + len })
skip WireType.fixed32 r =
    if ltb (length r.bytes_in) (r.pos + 4)
    then err truncated_fixed32
    else ok (record r { pos = r.pos + 4 })
skip WireType.start_group r = err group_not_supported
skip WireType.end_group r = err group_not_supported
