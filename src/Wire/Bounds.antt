-- ===== src/Wire/Bounds.antt =====
-- What a successful read of wire.rs does to its reader, on any input: it stays inside the bytes,
-- moves forward, and leaves the bytes, the depth and the limits alone.
use protowire_rust.Prelude.{
  ℕ, zero, suc, ◌+◌, ◌*◌, ◌%◌, ◌^◌, ◌≤◌, ◌<◌, bit_and, bit_or, List, length, get_or, ◌≡◌, refl,
  arith,
}
use protowire_rust.Prelude.Bits.{bit_or-lt}
use protowire_rust.Wire.Types.{ok, Error, WireType}
use protowire_rust.Wire.Reader
use protowire_rust.Wire.Reader.{Reader}

-- `r'` is `r` further on, by `least` bytes at least.
pub record Forward (least : ℕ) (r r' : Reader) : Type 0 where
  pub same : r' ≡ record r { pos = r'.pos }
  pub moved : r.pos + least ≤ r'.pos
  pub within : r'.pos ≤ length r.bytes_in

loop_bounds :
    (rounds result shift v : ℕ) (r r' : Reader)
    → result < 2 ^ 64
    → Reader.varint_loop rounds result shift r ≡ ok (v, r')
    → (v < 2 ^ 64) × (r'.pos ≤ r.pos + rounds) × Forward 1 r r'
unfolding Reader.varint_loop
loop_bounds zero result shift v r r' h e = cc
loop_bounds (suc rounds) result shift v r r' h e =
    let part = bit_and (get_or r.bytes_in r.pos 0) 0x7f * 2 ^ shift % 2 ^ 64 in
    ground (
      arith,
      bit_or-lt 64 result part,
      loop_bounds rounds (bit_or result part) (shift + 7) v (record r { pos = r.pos + 1 }) r',
    )

-- A varint that is read is a u64. The reader has moved by one to ten bytes, is inside its bytes,
-- and is otherwise unchanged.
pub varint_bounds :
    (r r' : Reader) (v : ℕ)
    → Reader.varint r ≡ ok (v, r')
    → (v < 2 ^ 64) × (r'.pos ≤ r.pos + 10) × Forward 1 r r'
unfolding Reader.varint
varint_bounds r r' v e = loop_bounds 10 0 0 v r r' (omega arith) e

pub varint_pair : (r : Reader) (x : ℕ × Reader) → Reader.varint r ≡ ok x → Forward 1 r x.1
varint_pair r x e = (varint_bounds r x.1 x.0 e).2

pub Forward-trans : {a b : ℕ} {r s t : Reader} → Forward a r s → Forward b s t → Forward (a + b) r t
Forward-trans {a} {b} {r} {s} {t} f g = record {
  same = step;
  moved = omega (arith, f.moved, g.moved);
  within = ends;
}
  where
    step : t ≡ record r { pos = t.pos }
    step = ground (arith, f.same, g.same)

    ends : t.pos ≤ length r.bytes_in
    ends = ground (arith, f.same, g.within)

pub Forward-weaken : {a : ℕ} {r s : Reader} → Forward a r s → Forward 0 r s
Forward-weaken f = record { same = f.same; moved = omega (arith, f.moved); within = f.within }

pub Forward-refl : (r : Reader) → r.pos ≤ length r.bytes_in → Forward 0 r r
Forward-refl r h = record { same = refl; moved = omega arith; within = h }

-- A length that is accepted does not reach past the bytes.
pub fit_length_bounds :
    (e : Error) (len n : ℕ) (r : Reader)
    → Reader.fit_length e len r ≡ ok n
    → (n ≡ len) × (r.pos + n ≤ length r.bytes_in)
unfolding Reader.fit_length
fit_length_bounds e len n r h = ground arith

pub read_length_bounds :
    (r r' : Reader) (n : ℕ)
    → Reader.read_length r ≡ ok (n, r')
    → Forward 1 r r' × (r'.pos + n ≤ length r.bytes_in)
unfolding Reader.read_length
read_length_bounds r r' n h = grind (arith, varint_pair, fit_length_bounds)

pub bytes_view_bounds :
    (r r' : Reader) (s : List ℕ) → Reader.bytes_view r ≡ ok (s, r') → Forward 1 r r'
unfolding Reader.bytes_view
bytes_view_bounds r r' s h = grind (arith, read_length_bounds)

pub string_bounds : (r r' : Reader) (s : List ℕ) → Reader.string r ≡ ok (s, r') → Forward 1 r r'
unfolding Reader.string
string_bounds r r' s h = grind (arith, bytes_view_bounds)

pub tag_bounds :
    (r r' : Reader) (n : ℕ) (wt : WireType) → Reader.tag r ≡ ok ((n, wt), r') → Forward 1 r r'
unfolding Reader.tag
tag_bounds r r' n wt h = grind (arith, varint_pair)

-- Where `skip` returns, the reader has moved by one byte at least, is inside its bytes, and is
-- otherwise unchanged.
pub skip_bounds : (wt : WireType) (r r' : Reader) → Reader.skip wt r ≡ ok r' → Forward 1 r r'
unfolding Reader.skip
skip_bounds WireType.varint r r' h = grind (arith, varint_pair)
skip_bounds WireType.fixed64 r r' h = ground arith
skip_bounds WireType.length_delimited r r' h = grind (arith, read_length_bounds)
skip_bounds WireType.fixed32 r r' h = ground arith
skip_bounds WireType.start_group r r' h = cc
skip_bounds WireType.end_group r r' h = cc
