-- ===== src/Envelope/Depth.antt =====
-- The depth limit in crates/protowire-envelope/src/codec.rs, for an envelope with an application
-- error.
use protowire_rust.Prelude.{ℕ, ◌<◌, ◌^◌, List, ◌++◌, length, some, ◌≡◌, refl, arith}
use protowire_rust.Wire.Types.{err, depth_exceeded}
use protowire_rust.Wire.Writer
use protowire_rust.Wire.Writer.{Writer}
use protowire_rust.Codec.{MarshalOptions, marshal_with, ◌>>=?◌}
use protowire_rust.Codec.Writes.{write_message-refused}
use protowire_rust.Envelope.Defs.{AppError, Envelope}
use protowire_rust.Envelope.Format.{
  write_status, write_text, write_payload, write_error, encode_envelope, envelope_message,
  app_error_message,
}
use protowire_rust.Envelope.Layout.{
  status_bytes, text_bytes, both_write, status-Writes, text-Writes, payload-Writes,
}

abbrev scalar_bytes : Envelope → List ℕ
scalar_bytes e = (status_bytes e.status ++ text_bytes 2 e.transport_error) ++ text_bytes 3 e.payload

-- An envelope with an application error is refused with `DepthExceeded` at the depth limit 0,
-- when the status is an i32 pattern and the other fields can be counted in 64 bits.
pub marshal_with_no_room :
    (e : Envelope) (a : AppError) (options : MarshalOptions)
    → e.error ≡ some a
    → options.max_nesting_depth ≡ 0
    → e.status < 2 ^ 32
    → length (scalar_bytes e) < 2 ^ 64
    → marshal_with e options ≡ some (err (depth_exceeded 0))
unfolding marshal_with encode_envelope write_error Writer.with_max_nesting_depth
    Writer.finish_checked
marshal_with_no_room e a options has none_left word small =
    let full = record (Writer.with_max_nesting_depth 0) { buf = scalar_bytes e } in
    rw (none_left, has, front) (rw (write_message-refused app_error_message 4 a full (omega arith)))
  where
    front :
        (write_status e.status (Writer.with_max_nesting_depth 0)
          >>=? write_text 2 e.transport_error
          >>=? write_payload e.payload)
        ≡ some (record (Writer.with_max_nesting_depth 0) {
          buf = (Writer.with_max_nesting_depth 0).buf ++ scalar_bytes e;
        })
    front =
        both_write 0 0 _ _ _ _
          (both_write 0 0 _ _ _ _ (λ _. status-Writes 0 0 e.status word)
            (text-Writes 0 0 2 e.transport_error (omega arith)))
          (payload-Writes 0 0 e.payload) small (Writer.with_max_nesting_depth 0) refl refl
