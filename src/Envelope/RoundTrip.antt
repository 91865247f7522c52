-- ===== src/Envelope/RoundTrip.antt =====
-- Encoding and decoding of envelopes, crates/protowire-envelope/src/codec.rs through
-- crates/protowire-pb/src/codec.rs.
use protowire_rust.Prelude.{ℕ, ◌≤◌, ◌<◌, ◌^◌, List, length, some, ◌≡◌, refl, arith}
use protowire_rust.Wire.Types.{Limits, ok}
use protowire_rust.Wire.Writer
use protowire_rust.Codec.{MarshalOptions, marshal_with, unmarshal_with}
use protowire_rust.Codec.Runs.{unmarshal_with-Decodes}
use protowire_rust.Envelope.Defs.{Envelope}
use protowire_rust.Envelope.Format.{envelope_message}
use protowire_rust.Envelope.Layout.{envelope_bytes, encode_envelope-Writes}
use protowire_rust.Envelope.Nested.{FitsEnvelope, envelope-Decodes}

-- Marshalling an envelope succeeds and writes its described bytes, when the status is an i32
-- pattern, the depth limit is 2 at least and the bytes can be counted in 64 bits.
pub marshal_with-envelope_bytes :
    (e : Envelope) (options : MarshalOptions)
    → e.status < 2 ^ 32
    → 2 ≤ options.max_nesting_depth
    → length (envelope_bytes e) < 2 ^ 64
    → marshal_with e options ≡ some (ok (envelope_bytes e))
unfolding marshal_with
marshal_with-envelope_bytes e options word deep size = rw (
    encode_envelope-Writes 0 options.max_nesting_depth e (omega arith) word size
      (Writer.with_max_nesting_depth options.max_nesting_depth) refl refl)

-- Unmarshalling the bytes that marshalling writes gives back the envelope: for an envelope whose
-- strings are UTF-8, whose status is an i32 pattern, whose metadata keys are distinct and whose
-- repeated fields are within the limits, where both depth limits are 2 at least and the encoded
-- size is within the size limit.
pub unmarshal-marshal :
    (e : Envelope) (options : MarshalOptions) (limits : Limits)
    → FitsEnvelope limits e
    → 2 ≤ options.max_nesting_depth
    → 2 ≤ limits.max_nesting_depth
    → length (envelope_bytes e) ≤ limits.max_message_size
    → length (envelope_bytes e) < 2 ^ 64
    → (d : List ℕ) × (marshal_with e options ≡ some (ok d)) × (unmarshal_with d limits ≡ ok e)
unmarshal-marshal e options limits fits deep deep' size word =
    let d = envelope_bytes e in
    (
      d,
      marshal_with-envelope_bytes e options fits.word deep word,
      unmarshal_with-Decodes envelope_message d limits e
          (envelope-Decodes d limits word deep' e fits) size,
    )
