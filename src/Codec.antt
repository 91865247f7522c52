-- ===== src/Codec.antt =====
-- crates/protowire-pb/src/codec.rs: the `Message` trait, and encoding and decoding with it. A type
-- that implements the trait is an instance of the record `Message`; its two methods return `none`
-- for a panic, and an error or a result. The children are about these functions.
pub mod Total
pub mod Runs
pub mod Writes
use protowire_rust.Prelude.{
  ℕ, zero, suc, ◌+◌, ◌-◌, List, [], ◌∷◌, Bool, true, false, not, Option, none, some, leb, ltb, ◌==◌,
  if◌then◌else◌, length,
}
use protowire_rust.Wire.Types.{
  Limits, default_limits, Error, nested_exceeds_buffer, overrun, depth_exceeded, message_too_large,
  Result, ok, err, stuck, ◌>>=◌, WireType, max_nesting_depth_default,
}
use protowire_rust.Wire.Writer
use protowire_rust.Wire.Writer.{Writer}
use protowire_rust.Wire.Reader
use protowire_rust.Wire.Reader.{Reader, eof}

-- The trait, with the type's `Default` value.
pub record Message (M : Type 0) : Type 0 where
  pub default : M
  pub encode_to : M → Writer → Option Writer
  pub merge_field : ℕ → WireType → M → Reader → Result (M × Reader)

-- A chain of steps that may panic.
infixl 5 ◌>>=?◌
abbrev pub ◌>>=?◌ : {A B : Type 0} → Option A → (A → Option B) → Option B
none >>=? f = none
some a >>=? f = f a

pub record MarshalOptions : Type 0 where
  pub max_nesting_depth : ℕ

abbrev pub default_options : MarshalOptions
default_options = record { max_nesting_depth = max_nesting_depth_default }

-- The beginning of `read_message`: the length, its two checks and the depth check, in that order.
-- It gives the end of the message and the reader one descent down.
unfoldable pub open_message : Reader → Result (ℕ × Reader)
unfolding Reader.fit_length
open_message r = do
  (len, r') ← Reader.varint r
  n ← Reader.fit_length nested_exceeds_buffer len r'
  if leb r'.limits.max_nesting_depth r'.depth
      then err (depth_exceeded r'.limits.max_nesting_depth)
      else ok (r'.pos + n, record r' { depth = r'.depth + 1 })

module _ {M : Type 0} ⦃m : Message M⦄ where
  unfoldable pub marshal_with : M → MarshalOptions → Option (Result (List ℕ))
  unfolding Writer.with_max_nesting_depth Writer.finish_checked
  marshal_with value options =
      m.encode_to value (Writer.with_max_nesting_depth options.max_nesting_depth) >>=? λ w.
      some (Writer.finish_checked w)

  unfoldable pub marshal : M → Option (Result (List ℕ))
  unfolding marshal_with
  marshal value = marshal_with value default_options

  -- `let (num, wt) = r.tag()?; msg.merge_field(num, wt, r)?;`
  unfoldable pub merge_step : M → Reader → Result (M × Reader)
  merge_step msg r = do ((num, wt), r') ← Reader.tag r; m.merge_field num wt msg r'

  -- `while <more> { … }`, with the step above as its body
  unfoldable pub merge_loop : (fuel : ℕ) → (Reader → Bool) → M → Reader → Result (M × Reader)
  merge_loop zero more msg r = stuck
  merge_loop (suc fuel) more msg r = elim (more r) [
    | false ↦ ok (msg, r)
    | true ↦ do (msg', r') ← merge_step msg r; merge_loop fuel more msg' r'
  ]

  -- Each round reads a tag, of a byte at least: `length` rounds and a last test are enough.
  unfoldable pub unmarshal_with : List ℕ → Limits → Result M
  unfolding merge_loop merge_step Reader.with_limits
  unmarshal_with d limits =
      if ltb limits.max_message_size (length d)
      then err (message_too_large (length d) limits.max_message_size)
      else do
        (msg, _) ←
            merge_loop (suc (length d)) (λ r. not (eof r)) m.default (Reader.with_limits d limits)
        ok msg

  unfoldable pub unmarshal : List ℕ → Result M
  unfolding unmarshal_with
  unmarshal d = unmarshal_with d default_limits

  -- The length-prefixed bytes of a message one descent down, from `nested` to `finish_nested`.
  -- `none` in the second place: nothing is written, and the writer has recorded the refusal.
  unfoldable pub nested_bytes : M → Writer → Option (Writer × Option (List ℕ))
  unfolding Writer.nested Writer.finish_nested
  nested_bytes msg w =
      let (w', inner) = Writer.nested w in
      elim inner [
        | none ↦ some (w', none)
        | some i ↦ m.encode_to msg i >>=? λ i'. some (Writer.finish_nested w' i')
      ]

  unfoldable pub write_message : ℕ → M → Writer → Option Writer
  unfolding nested_bytes Writer.raw
  write_message field_number msg w = nested_bytes msg w >>=? λ (w', out). elim out [
    | none ↦ some w'
    | some b ↦ Writer.tag field_number WireType.length_delimited w' >>=? λ w''.
        some (Writer.raw b (Writer.varint (length b) w''))
  ]

  -- The closure of `read_message`: the fields up to `end`, which the last one must meet exactly.
  unfoldable pub read_body : (end : ℕ) → Reader → Result (M × Reader)
  unfolding merge_loop merge_step
  read_body end r = do
    (msg, r') ← merge_loop (suc (length r.bytes_in)) (λ q. ltb q.pos end) m.default r
    if r'.pos == end then ok (msg, r') else err (overrun r'.pos end)

  unfoldable pub read_message : Reader → Result (M × Reader)
  unfolding read_body open_message
  read_message r = do
    (end, r') ← open_message r
    (msg, r'') ← read_body end r'
    ok (msg, record r'' { depth = r''.depth - 1 })

-- The trait `MapEntryField`.
pub record MapEntryField (A : Type 0) : Type 0 where
  pub wire_type : WireType
  pub write_to : A → Writer → Option Writer

-- Its implementations. `str` and `[u8]` are lists of bytes, i32 and i64 bit patterns.
abbrev pub str_entry : MapEntryField (List ℕ)
str_entry = record {
  wire_type = WireType.length_delimited;
  write_to = λ v w. some (Writer.string v w);
}

abbrev pub byte_slice_entry : MapEntryField (List ℕ)
byte_slice_entry = record {
  wire_type = WireType.length_delimited;
  write_to = λ v w. some (Writer.bytes v w);
}

abbrev pub bool_entry : MapEntryField Bool
bool_entry = record {
  wire_type = WireType.varint;
  write_to = λ v w. some (Writer.varint (if v then 1 else 0) w);
}

abbrev pub i32_entry : MapEntryField ℕ
i32_entry = record { wire_type = WireType.varint; write_to = λ v w. some (Writer.varint_i32 v w) }

abbrev pub i64_entry : MapEntryField ℕ
i64_entry = record { wire_type = WireType.varint; write_to = λ v w. some (Writer.varint_i64 v w) }

abbrev pub unsigned_entry : MapEntryField ℕ
unsigned_entry = record { wire_type = WireType.varint; write_to = λ v w. some (Writer.varint v w) }

abbrev pub f32_entry : MapEntryField ℕ
f32_entry = record { wire_type = WireType.fixed32; write_to = λ v w. some (Writer.float v w) }

abbrev pub f64_entry : MapEntryField ℕ
f64_entry = record { wire_type = WireType.fixed64; write_to = λ v w. some (Writer.double v w) }

abbrev pub message_entry : {M : Type 0} ⦃m : Message M⦄ → MapEntryField M
message_entry = record {
  wire_type = WireType.length_delimited;
  write_to = λ msg w. nested_bytes msg w >>=? λ (w', out). elim out [
    | none ↦ some w'
    | some b ↦ some (Writer.raw b (Writer.varint (length b) w'))
  ];
}

module _ {K V : Type 0} ⦃k : MapEntryField K⦄ ⦃v : MapEntryField V⦄ where
  -- The two fields of an entry, both always written.
  unfoldable pub entry_fields : K → V → Writer → Option Writer
  entry_fields key value w =
      Writer.tag 1 k.wire_type w
      >>=? k.write_to key
      >>=? Writer.tag 2 v.wire_type
      >>=? v.write_to value

  unfoldable pub write_map_entry : ℕ → K → V → Writer → Option Writer
  unfolding entry_fields Writer.nested Writer.finish_nested Writer.raw
  write_map_entry field_number key value w =
      let (w', inner) = Writer.nested w in
      elim inner [
        | none ↦ some w'
        | some entry ↦ entry_fields key value entry >>=? λ entry'.
            (let (w'', out) = Writer.finish_nested w' entry' in
              elim out [
                | none ↦ some w''
                | some b ↦ Writer.tag field_number WireType.length_delimited w'' >>=? λ w3.
                    some (Writer.raw b (Writer.varint (length b) w3))
              ])
      ]
