-- ===== src/Tests/Envelope.antt =====
-- Tests of crates/protowire-envelope/src.
use protowire_rust.Prelude.{ℕ, List, [], ◌∷◌, length, some, ◌≡◌, ◌≢◌, refl, codes, arith}
use protowire_rust.Wire.Types.{default_limits, ok, stuck}
use protowire_rust.Wire.Utf8.{utf8_loop}
use protowire_rust.Wire.Varint.{varint_bytes}
use protowire_rust.Wire.Numbers.{tag_bytes}
use protowire_rust.Wire.Fields.{delimited}
use protowire_rust.Codec.{default_options, marshal_with, unmarshal_with}
use protowire_rust.Envelope.Map.{contains_key}
use protowire_rust.Envelope.Defs.{FieldError, AppError, Envelope}
use protowire_rust.Envelope.Format.{envelope_message}
use protowire_rust.Envelope.Layout.{
  envelope_bytes, status_bytes, text_bytes, texts_bytes, field_bytes, field_error_bytes,
  details_bytes, entry_bytes, metadata_bytes, app_error_bytes, error_bytes,
}
use protowire_rust.Envelope.Nested.{FitsEnvelope}
use protowire_rust.Envelope.RoundTrip.{unmarshal-marshal, marshal_with-envelope_bytes}
use protowire_rust.Envelope.Total.{unmarshal-envelope_answers}

abbrev sample_detail : FieldError
sample_detail = record {
  field = codes "email";
  code = codes "FORMAT";
  message = [];
  args = codes "a@" ∷ [];
}

abbrev sample_error : AppError
sample_error = record {
  code = codes "VALIDATION";
  message = codes "bad";
  args = codes "x" ∷ [] ∷ [];
  details = sample_detail ∷ [];
  metadata = (codes "region", codes "eu") ∷ (codes "tier", []) ∷ [];
}

abbrev sample : Envelope
sample = record {
  status = 422;
  transport_error = [];
  payload = 1 ∷ 2 ∷ [];
  error = some sample_error;
}

sample_fits : FitsEnvelope default_limits sample
unfolding utf8_loop contains_key
sample_fits = record {
  word = omega arith;
  transport_text = refl;
  error_fits = record {
    code_text = refl;
    message_text = refl;
    args_text = (refl, (refl, tt));
    args_count = omega arith;
    details_fit = (
      record {
        field_text = refl;
        code_text = refl;
        message_text = refl;
        args_text = (refl, tt);
        args_count = omega arith;
      },
      tt,
    );
    details_count = omega arith;
    metadata_text = ((refl, refl), ((refl, refl), tt));
    metadata_count = omega arith;
    distinct = (refl, (refl, tt));
  };
}

sample-length : length (envelope_bytes sample) ≡ 76
unfolding envelope_bytes status_bytes text_bytes texts_bytes field_bytes field_error_bytes
    details_bytes entry_bytes metadata_bytes app_error_bytes error_bytes tag_bytes delimited
    varint_bytes
sample-length = refl

unmarshal-marshal_example :
    (d : List ℕ) × (marshal_with sample default_options ≡ some (ok d))
    × (unmarshal_with d default_limits ≡ ok sample)
unmarshal-marshal_example =
    unmarshal-marshal sample default_options default_limits sample_fits (omega arith) (omega arith)
      (omega (arith, sample-length)) (omega (arith, sample-length))

marshal_with-envelope_bytes_example :
    marshal_with sample default_options ≡ some (ok (envelope_bytes sample))
marshal_with-envelope_bytes_example =
    marshal_with-envelope_bytes sample default_options (omega arith) (omega arith)
      (omega (arith, sample-length))

unmarshal-envelope_answers_example :
    unmarshal_with ⦃m = envelope_message⦄ (0x22 ∷ 5 ∷ 0x0a ∷ []) default_limits ≢ stuck
unmarshal-envelope_answers_example =
    unmarshal-envelope_answers (0x22 ∷ 5 ∷ 0x0a ∷ []) default_limits
