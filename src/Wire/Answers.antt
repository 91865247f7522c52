-- ===== src/Wire/Answers.antt =====
-- The reads of wire.rs always answer: no loop of the model runs out of rounds.
use protowire_rust.Prelude.{
  ℕ, zero, suc, ◌+◌, ◌*◌, ◌%◌, ◌^◌, bit_and, bit_or, List, get_or, ◌≢◌, arith,
}
use protowire_rust.Wire.Types.{stuck, Error, WireType, from_u8}
use protowire_rust.Wire.Reader
use protowire_rust.Wire.Reader.{Reader}

loop_answers :
    (rounds result shift : ℕ) (r : Reader) → Reader.varint_loop rounds result shift r ≢ stuck
unfolding Reader.varint_loop
loop_answers zero result shift r e = cc
loop_answers (suc rounds) result shift r e =
    let part = bit_and (get_or r.bytes_in r.pos 0) 0x7f * 2 ^ shift % 2 ^ 64 in
    ground
      (arith, loop_answers rounds (bit_or result part) (shift + 7) (record r { pos = r.pos + 1 }))

pub varint-ne-stuck : (r : Reader) → Reader.varint r ≢ stuck
unfolding Reader.varint
varint-ne-stuck r = loop_answers 10 0 0 r

pub fit_length-ne-stuck : (e : Error) (n : ℕ) (r : Reader) → Reader.fit_length e n r ≢ stuck
unfolding Reader.fit_length
fit_length-ne-stuck e n r h = ground arith

read_length-ne-stuck : (r : Reader) → Reader.read_length r ≢ stuck
unfolding Reader.read_length
read_length-ne-stuck r h = grind (arith, varint-ne-stuck, fit_length-ne-stuck)

pub bytes_view-ne-stuck : (r : Reader) → Reader.bytes_view r ≢ stuck
unfolding Reader.bytes_view
bytes_view-ne-stuck r h = grind (arith, read_length-ne-stuck)

pub string-ne-stuck : (r : Reader) → Reader.string r ≢ stuck
unfolding Reader.string
string-ne-stuck r h = grind (arith, bytes_view-ne-stuck)

from_u8-ne-stuck : (n : ℕ) → from_u8 n ≢ stuck
unfolding from_u8
from_u8-ne-stuck zero e = cc
from_u8-ne-stuck (suc zero) e = cc
from_u8-ne-stuck (suc (suc zero)) e = cc
from_u8-ne-stuck (suc (suc (suc zero))) e = cc
from_u8-ne-stuck (suc (suc (suc (suc zero)))) e = cc
from_u8-ne-stuck (suc (suc (suc (suc (suc zero))))) e = cc
from_u8-ne-stuck (suc (suc (suc (suc (suc (suc n)))))) e = cc

pub tag-ne-stuck : (r : Reader) → Reader.tag r ≢ stuck
unfolding Reader.tag
tag-ne-stuck r h = grind (arith, varint-ne-stuck, from_u8-ne-stuck)

pub skip-ne-stuck : (wt : WireType) (r : Reader) → Reader.skip wt r ≢ stuck
unfolding Reader.skip
skip-ne-stuck WireType.varint r h = grind (arith, varint-ne-stuck)
skip-ne-stuck WireType.fixed64 r h = ground arith
skip-ne-stuck WireType.length_delimited r h = grind (arith, read_length-ne-stuck)
skip-ne-stuck WireType.fixed32 r h = ground arith
skip-ne-stuck WireType.start_group r h = cc
skip-ne-stuck WireType.end_group r h = cc

pub push_element-ne-stuck :
    {A : Type 0} (list : List A) (elem : A) (r : Reader) → Reader.push_element list elem r ≢ stuck
unfolding Reader.push_element
push_element-ne-stuck list elem r h = ground arith
