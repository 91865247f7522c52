-- ===== src/Tests/Codec.antt =====
-- Tests of crates/protowire-pb/src/codec.rs, on the messages of an envelope.
use protowire_rust.Prelude.{◌<◌, [], ◌∷◌, ◌++◌, length, some, ◌≡◌, ◌≢◌, refl, codes, arith, false}
use protowire_rust.Wire.Types.{default_limits, ok, err, stuck, depth_exceeded, from_u8}
use protowire_rust.Wire.Utf8.{utf8_loop}
use protowire_rust.Wire.Writer
use protowire_rust.Wire.Writer.{Writer}
use protowire_rust.Wire.Reader
use protowire_rust.Wire.Reader.{Reader}
use protowire_rust.Wire.Varint.{varint_bytes, varint-groups}
use protowire_rust.Wire.Bounds.{Forward}
use protowire_rust.Codec.{marshal_with, read_message}
use protowire_rust.Codec.Total.{read_message-Forward, read_message-ne-stuck}
use protowire_rust.Envelope.Defs.{FieldError, AppError, Envelope}
use protowire_rust.Envelope.Format.{
  field_error_message, envelope_message, merge_field_error, set_string,
}
use protowire_rust.Envelope.Layout.{status_bytes, text_bytes}
use protowire_rust.Envelope.Depth.{marshal_with_no_room}
use protowire_rust.Envelope.Total.{field_error-IsTotal}

-- A field error of length 3, with the field "a", and a byte behind it.
abbrev framed : Reader
framed = record {
  bytes_in = 3 ∷ 0x0a ∷ 1 ∷ b'a' ∷ 9 ∷ [];
  pos = 0;
  depth = 0;
  limits = default_limits;
}

abbrev field_a : FieldError
field_a = record { field = codes "a"; code = []; message = []; args = [] }

reads_framed :
    read_message ⦃m = field_error_message⦄ framed ≡ ok (field_a, record framed { pos = 4 })
unfolding read_message merge_field_error set_string Reader.varint Reader.tag Reader.string
    Reader.read_length from_u8 utf8_loop
reads_framed = refl

read_message-Forward_example : Forward 1 framed (record framed { pos = 4 }) × (0 < 100)
read_message-Forward_example =
    read_message-Forward field_error_message field_error-IsTotal framed
      (field_a, record framed { pos = 4 }) reads_framed

read_message-ne-stuck_example : read_message ⦃m = field_error_message⦄ framed ≢ stuck
read_message-ne-stuck_example = read_message-ne-stuck field_error_message field_error-IsTotal framed

abbrev refused_error : AppError
refused_error = record { code = codes "X"; message = []; args = []; details = []; metadata = [] }

abbrev refused_envelope : Envelope
refused_envelope = record {
  status = 500;
  transport_error = [];
  payload = [];
  error = some refused_error;
}

scalars_length : length ((status_bytes 500 ++ text_bytes 2 []) ++ text_bytes 3 []) ≡ 3
unfolding status_bytes text_bytes varint_bytes protowire_rust.Wire.Numbers.tag_bytes
scalars_length = refl

marshal_with_no_room_example :
    marshal_with refused_envelope (record { max_nesting_depth = 0 }) ≡ some (err (depth_exceeded 0))
marshal_with_no_room_example =
    marshal_with_no_room refused_envelope refused_error (record { max_nesting_depth = 0 }) refl refl
      (omega arith) (omega (arith, scalars_length))

abbrev blank_writer : Writer
blank_writer = record { buf = 7 ∷ []; depth = 0; max_depth = 100; exceeded = false }

varint-groups_example :
    Writer.varint 300 blank_writer ≡ record blank_writer { buf = (7 ∷ []) ++ varint_bytes 300 }
varint-groups_example = varint-groups 300 blank_writer (omega arith)
