-- ===== src/Wire/Writer.antt =====
-- crates/protowire-pb/src/wire.rs, lines 114 to 291: `Writer`. A method that takes `&mut self`
-- returns the new writer; `none` is a panic, of `tag` alone.
use protowire_rust.Prelude.{
  ℕ, ◌+◌, ◌*◌, ◌/◌, ◌%◌, ◌^◌, ◌≤◌, ◌<◌, bit_and, bit_or, bit_xor, List, [], ◌∷◌, ◌++◌, Bool, true,
  false, ◌&&◌, Option, none, some, leb, if◌then◌else◌, length, arith,
}
use protowire_rust.Prelude.Order.{lt_wf}
use protowire_rust.Wire.Types.{
  Result, ok, err, depth_exceeded, WireType, wire_code, max_nesting_depth_default,
}
use protowire_rust.Wire.Bytes.{to_le_bytes, sign_extend, sign_mask}
use mathlib.Core.Logic.{dite}
use mathlib.Core.WellFounded.{Acc}
use native.Mathlib.Decide.{dec_le}

pub record Writer : Type 0 where
  pub buf : List ℕ
  pub depth : ℕ
  pub max_depth : ℕ
  pub exceeded : Bool

unfoldable pub with_max_nesting_depth : ℕ → Writer
with_max_nesting_depth limit = record { buf = []; depth = 0; max_depth = limit; exceeded = false }

unfoldable pub new : Writer
unfolding with_max_nesting_depth
new = with_max_nesting_depth max_nesting_depth_default

-- The writer itself, with the refusal recorded, and a writer one descent below it if there is one.
unfoldable pub nested : Writer → Writer × Option Writer
nested w = if leb w.max_depth w.depth then (record w { exceeded = true }, none) else (
  w,
  some (record { buf = []; depth = w.depth + 1; max_depth = w.max_depth; exceeded = false }),
)

unfoldable pub finish_nested : Writer → Writer → Writer × Option (List ℕ)
finish_nested w inner =
    if inner.exceeded then (record w { exceeded = true }, none) else (w, some inner.buf)

unfoldable pub finish_checked : Writer → Result (List ℕ)
finish_checked w = if w.exceeded then err (depth_exceeded w.max_depth) else ok w.buf

unfoldable pub raw : List ℕ → Writer → Writer
raw b w = record w { buf = w.buf ++ b }

shift_shrinks : (v : ℕ) → 0x80 ≤ v → v / 2 ^ 7 < v
shift_shrinks v h = omega arith

-- The loop of `varint` on the buffer: `((v & 0x7f) as u8) | 0x80` while `v >= 0x80`.
unfoldable pub varint_loop : (buf : List ℕ) (v : ℕ) → Acc ◌<◌ v → List ℕ
unfolding shift_shrinks
varint_loop buf v (Acc.intro _ smaller) =
    dite (dec_le 0x80 v)
      (λ more.
        varint_loop (buf ++ (bit_or (bit_and v 0x7f) 0x80 ∷ [])) (v / 2 ^ 7)
          (smaller _ (shift_shrinks v more)))
      (λ _. buf ++ ((v % 256) ∷ []))

unfoldable pub varint : ℕ → Writer → Writer
unfolding varint_loop lt_wf
varint v w = record w { buf = varint_loop w.buf v (lt_wf.apply v) }

unfoldable pub varint_i32 : ℕ → Writer → Writer
unfolding varint
varint_i32 v w = varint (sign_extend v) w

unfoldable pub varint_i64 : ℕ → Writer → Writer
unfolding varint
varint_i64 v w = varint v w

-- `((v << 1) ^ (v >> 31)) as u32`
unfoldable pub zigzag_bits : ℕ → ℕ → ℕ
zigzag_bits w v = bit_xor (v * 2 % 2 ^ w) (sign_mask w v)

unfoldable pub zigzag32 : ℕ → Writer → Writer
unfolding zigzag_bits varint
zigzag32 v w = varint (zigzag_bits 32 v) w

unfoldable pub zigzag64 : ℕ → Writer → Writer
unfolding zigzag_bits varint
zigzag64 v w = varint (zigzag_bits 64 v) w

unfoldable pub fixed32 : ℕ → Writer → Writer
unfolding to_le_bytes
fixed32 v w = record w { buf = w.buf ++ to_le_bytes 4 v }

unfoldable pub fixed64 : ℕ → Writer → Writer
unfolding to_le_bytes
fixed64 v w = record w { buf = w.buf ++ to_le_bytes 8 v }

-- A float is its bit pattern.
unfoldable pub float : ℕ → Writer → Writer
unfolding to_le_bytes
float v w = record w { buf = w.buf ++ to_le_bytes 4 v }

unfoldable pub double : ℕ → Writer → Writer
unfolding to_le_bytes
double v w = record w { buf = w.buf ++ to_le_bytes 8 v }

unfoldable pub bytes : List ℕ → Writer → Writer
unfolding raw
bytes v w = raw v (varint (length v) w)

-- A string is its UTF-8 bytes.
unfoldable pub string : List ℕ → Writer → Writer
unfolding bytes
string v w = bytes v w

unfoldable pub tag : ℕ → WireType → Writer → Option Writer
tag field_number wire_type w =
    if leb 1 field_number && leb field_number 0x1fff_ffff
    then some (varint (bit_or (field_number * 2 ^ 3) (wire_code wire_type)) w)
    else none
