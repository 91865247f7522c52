-- ===== src/Envelope/Layout.antt =====
-- The bytes of an envelope, described field by field, against the encoder of
-- crates/protowire-envelope/src/codec.rs.
use protowire_rust.Prelude.{
  ℕ, ◌+◌, ◌≤◌, ◌<◌, ◌^◌, List, [], ◌∷◌, ◌++◌, length, Option, none, some, if◌then◌else◌, ◌==◌,
  length-append, arith, append_assoc, append-nil,
}
use protowire_rust.Wire.Types.{WireType}
use protowire_rust.Wire.Writer
use protowire_rust.Wire.Writer.{Writer}
use protowire_rust.Wire.Bytes.{sign_extend}
use protowire_rust.Wire.Varint.{varint_bytes}
use protowire_rust.Wire.Numbers.{tag_bytes, IsFieldNumber}
use protowire_rust.Wire.Fields.{delimited, length-delimited}
use protowire_rust.Codec.{◌>>=?◌, write_message, write_map_entry, entry_fields, str_entry}
use protowire_rust.Codec.Writes.{
  Writes, Writes-nil, Writes-append, Writes-field, Writes-varint, Writes-bytes,
  write_message-Writes, write_map_entry-Writes,
}
use protowire_rust.Envelope.Defs.{Text, FieldError, AppError, Envelope, is_empty}
use protowire_rust.Envelope.Format.{
  write_string_field, write_text, write_texts, write_details, write_metadata, write_status,
  write_payload, write_error, encode_field_error, encode_app_error, encode_envelope,
  field_error_message, app_error_message, envelope_message,
}

-- A length-delimited field, and the optional and repeated ones made of it.
unfoldable pub field_bytes : ℕ → List ℕ → List ℕ
field_bytes n s = tag_bytes n WireType.length_delimited ++ delimited s

unfoldable pub text_bytes : ℕ → Text → List ℕ
text_bytes n s = if is_empty s then [] else field_bytes n s

unfoldable pub texts_bytes : ℕ → List Text → List ℕ
texts_bytes n [] = []
texts_bytes n (s ∷ ss) = field_bytes n s ++ texts_bytes n ss

-- The fields in the order of their numbers.
unfoldable pub field_error_bytes : FieldError → List ℕ
field_error_bytes e =
    text_bytes 1 e.field ++ text_bytes 2 e.code ++ text_bytes 3 e.message ++ texts_bytes 4 e.args

unfoldable pub details_bytes : List FieldError → List ℕ
details_bytes [] = []
details_bytes (fe ∷ fes) = field_bytes 4 (field_error_bytes fe) ++ details_bytes fes

-- Both fields of an entry stand in it, empty or not.
unfoldable pub entry_bytes : Text → Text → List ℕ
entry_bytes k v = field_bytes 1 k ++ field_bytes 2 v

unfoldable pub metadata_bytes : List (Text × Text) → List ℕ
metadata_bytes [] = []
metadata_bytes ((k, v) ∷ m) = field_bytes 5 (entry_bytes k v) ++ metadata_bytes m

unfoldable pub app_error_bytes : AppError → List ℕ
app_error_bytes e =
    text_bytes 1 e.code
    ++ text_bytes 2 e.message
    ++ texts_bytes 3 e.args
    ++ details_bytes e.details
    ++ metadata_bytes e.metadata

unfoldable pub status_bytes : ℕ → List ℕ
status_bytes status =
    if status == 0 then [] else tag_bytes 1 WireType.varint ++ varint_bytes (sign_extend status)

unfoldable pub error_bytes : Option AppError → List ℕ
error_bytes none = []
error_bytes (some e) = field_bytes 4 (app_error_bytes e)

unfoldable pub envelope_bytes : Envelope → List ℕ
envelope_bytes e =
    status_bytes e.status
    ++ text_bytes 2 e.transport_error
    ++ text_bytes 3 e.payload
    ++ error_bytes e.error

length-field_bytes : (n : ℕ) (s : List ℕ) → length s ≤ length (field_bytes n s)
unfolding field_bytes
length-field_bytes n s =
    omega (
      arith,
      length-append (tag_bytes n WireType.length_delimited) (delimited s),
      length-delimited s,
    )

-- A description that is short enough bounds each of its parts.
abbrev pub IsShort : List ℕ → Type 0
IsShort bs = length bs < 2 ^ 64

IsShort-field : (n : ℕ) (s : List ℕ) → IsShort (field_bytes n s) → IsShort s
IsShort-field n s h = omega (arith, length-field_bytes n s)

IsShort-left : (xs ys : List ℕ) → IsShort (xs ++ ys) → IsShort xs
IsShort-left xs ys h = omega (arith, length-append xs ys)

IsShort-right : (xs ys : List ℕ) → IsShort (xs ++ ys) → IsShort ys
IsShort-right xs ys h = omega (arith, length-append xs ys)

module _ (depth limit : ℕ) where
  field-Writes :
      (n : ℕ) (s : Text)
      → IsFieldNumber n
      → IsShort s
      → Writes depth limit (write_string_field n s) (field_bytes n s)
  unfolding write_string_field field_bytes Writer.string
  field-Writes n s num small =
      Writes-field depth limit n WireType.length_delimited (λ w. Writer.bytes s w) (delimited s) num
        (Writes-bytes depth limit s small)

  pub text-Writes :
      (n : ℕ) (s : Text)
      → IsFieldNumber n
      → IsShort (text_bytes n s)
      → Writes depth limit (write_text n s) (text_bytes n s)
  unfolding write_text text_bytes
  text-Writes n [] num small = Writes-nil depth limit
  text-Writes n (b ∷ bs) num small = field-Writes n (b ∷ bs) num (IsShort-field n (b ∷ bs) small)

  texts-Writes :
      (n : ℕ) (ss : List Text)
      → IsFieldNumber n
      → IsShort (texts_bytes n ss)
      → Writes depth limit (write_texts n ss) (texts_bytes n ss)
  unfolding write_texts texts_bytes
  texts-Writes n [] num small = Writes-nil depth limit
  texts-Writes n (s ∷ ss) num small =
      let front = field_bytes n s in
      let rest = texts_bytes n ss in
      Writes-append depth limit (write_string_field n s) (write_texts n ss) front rest
        (field-Writes n s num (IsShort-field n s (IsShort-left front rest small)))
        (texts-Writes n ss num (IsShort-right front rest small))

  -- Two writers in a row, under a bound on what both write.
  pub both_write :
      (f g : Writer → Option Writer) (xs ys : List ℕ)
      → (IsShort xs → Writes depth limit f xs)
      → (IsShort ys → Writes depth limit g ys)
      → IsShort (xs ++ ys)
      → Writes depth limit (λ w. f w >>=? g) (xs ++ ys)
  both_write f g xs ys hf hg small =
      Writes-append depth limit f g xs ys (hf (IsShort-left xs ys small))
        (hg (IsShort-right xs ys small))

  field_error-Writes :
      (e : FieldError)
      → IsShort (field_error_bytes e)
      → Writes depth limit (encode_field_error e) (field_error_bytes e)
  unfolding encode_field_error field_error_bytes
  field_error-Writes e =
      let num : IsFieldNumber 1 × IsFieldNumber 2 × IsFieldNumber 3 × IsFieldNumber 4 =
        omega arith in
      both_write _ _ _ _
        (both_write _ _ _ _
          (both_write _ _ _ _ (text-Writes 1 e.field num.0) (text-Writes 2 e.code num.1))
          (text-Writes 3 e.message num.2))
        (texts-Writes 4 e.args num.3)

module _ (depth limit : ℕ) where
  details-Writes :
      (es : List FieldError)
      → depth < limit
      → IsShort (details_bytes es)
      → Writes depth limit (write_details es) (details_bytes es)
  unfolding write_details details_bytes field_bytes
  details-Writes [] room = λ small. Writes-nil depth limit
  details-Writes (e ∷ es) room =
      both_write depth limit (write_message ⦃m = field_error_message⦄ 4 e) (write_details es)
        (field_bytes 4 (field_error_bytes e)) (details_bytes es)
        (λ small.
          let inner = IsShort-field 4 (field_error_bytes e) small in
          write_message-Writes depth limit field_error_message 4 e (field_error_bytes e)
            (omega arith) room inner (field_error-Writes (depth + 1) limit e inner))
        (details-Writes es room)

  entry-Writes :
      (k v : Text)
      → IsShort (entry_bytes k v)
      → Writes depth limit (entry_fields ⦃k = str_entry⦄ ⦃v = str_entry⦄ k v) (entry_bytes k v)
  unfolding entry_fields entry_bytes write_string_field
  entry-Writes k v small w hd hl = ground (
    arith,
    field-Writes depth limit 1 k (omega arith)
        (IsShort-field 1 k (IsShort-left (field_bytes 1 k) (field_bytes 2 v) small)) w hd hl,
    field-Writes depth limit 2 v (omega arith)
        (IsShort-field 2 v (IsShort-right (field_bytes 1 k) (field_bytes 2 v) small))
        (record w { buf = w.buf ++ field_bytes 1 k }) hd hl,
    append_assoc w.buf (field_bytes 1 k) (field_bytes 2 v),
  )

module _ (depth limit : ℕ) where
  metadata-Writes :
      (m : List (Text × Text))
      → depth < limit
      → IsShort (metadata_bytes m)
      → Writes depth limit (write_metadata m) (metadata_bytes m)
  unfolding write_metadata metadata_bytes field_bytes
  metadata-Writes [] room = λ small. Writes-nil depth limit
  metadata-Writes ((k, v) ∷ m) room =
      both_write depth limit (write_map_entry ⦃k = str_entry⦄ ⦃v = str_entry⦄ 5 k v)
        (write_metadata m) (field_bytes 5 (entry_bytes k v)) (metadata_bytes m)
        (λ small.
          let inner = IsShort-field 5 (entry_bytes k v) small in
          write_map_entry-Writes depth limit str_entry str_entry 5 k v (entry_bytes k v)
            (omega arith) room inner (entry-Writes (depth + 1) limit k v inner))
        (metadata-Writes m room)

  app_error-Writes :
      (e : AppError)
      → depth < limit
      → IsShort (app_error_bytes e)
      → Writes depth limit (encode_app_error e) (app_error_bytes e)
  unfolding encode_app_error app_error_bytes
  app_error-Writes e room =
      let num : IsFieldNumber 1 × IsFieldNumber 2 × IsFieldNumber 3 = omega arith in
      both_write depth limit _ _ _ _
        (both_write depth limit _ _ _ _
          (both_write depth limit _ _ _ _
            (both_write depth limit _ _ _ _ (text-Writes depth limit 1 e.code num.0)
              (text-Writes depth limit 2 e.message num.1))
            (texts-Writes depth limit 3 e.args num.2))
          (details-Writes depth limit e.details room))
        (metadata-Writes e.metadata room)

pub status-Writes :
    (depth limit status : ℕ)
    → status < 2 ^ 32
    → Writes depth limit (write_status status) (status_bytes status)
unfolding write_status status_bytes Writer.varint_i32
status-Writes depth limit status h w hd hl =
    let wide : sign_extend status < 2 ^ 64 = ground arith in
    ground (
      arith,
      append-nil w.buf,
      Writes-field depth limit 1 WireType.varint (λ v. Writer.varint (sign_extend status) v)
          (varint_bytes (sign_extend status)) (omega arith)
          (Writes-varint depth limit (sign_extend status) wide) w hd hl,
    )

pub payload-Writes :
    (depth limit : ℕ) (b : List ℕ)
    → IsShort (text_bytes 3 b)
    → Writes depth limit (write_payload b) (text_bytes 3 b)
unfolding write_payload text_bytes field_bytes
payload-Writes depth limit [] small = Writes-nil depth limit
payload-Writes depth limit (x ∷ b) small =
    Writes-field depth limit 3 WireType.length_delimited (λ w. Writer.bytes (x ∷ b) w)
      (delimited (x ∷ b)) (omega arith)
      (Writes-bytes depth limit (x ∷ b) (IsShort-field 3 (x ∷ b) small))

error-Writes :
    (depth limit : ℕ) (o : Option AppError)
    → depth + 1 < limit
    → IsShort (error_bytes o)
    → Writes depth limit (write_error o) (error_bytes o)
unfolding write_error error_bytes field_bytes
error-Writes depth limit none room small = Writes-nil depth limit
error-Writes depth limit (some e) room small =
    let inner = IsShort-field 4 (app_error_bytes e) small in
    write_message-Writes depth limit app_error_message 4 e (app_error_bytes e) (omega arith)
      (omega arith) inner (app_error-Writes (depth + 1) limit e room inner)

-- The encoder writes the described bytes: for a status that is an i32 pattern, where two descents
-- are allowed below this one and the bytes can be counted in 64 bits.
pub encode_envelope-Writes :
    (depth limit : ℕ) (e : Envelope)
    → depth + 1 < limit
    → e.status < 2 ^ 32
    → length (envelope_bytes e) < 2 ^ 64
    → Writes depth limit (encode_envelope e) (envelope_bytes e)
unfolding encode_envelope envelope_bytes
encode_envelope-Writes depth limit e room word =
    both_write depth limit _ _ _ _
      (both_write depth limit _ _ _ _
        (both_write depth limit _ _ _ _ (λ _. status-Writes depth limit e.status word)
          (text-Writes depth limit 2 e.transport_error (omega arith)))
        (payload-Writes depth limit e.payload))
      (error-Writes depth limit e.error room)
