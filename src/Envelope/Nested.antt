-- ===== src/Envelope/Nested.antt =====
-- The decoder of crates/protowire-envelope/src/codec.rs on the fields that nest: details, metadata
-- entries, the application error, and the whole envelope.
use protowire_rust.Prelude.{
  ℕ, ◌+◌, ◌≤◌, ◌<◌, ◌^◌, ◌%◌, List, [], ◌∷◌, ◌++◌, false, length, Option, none, some, ◌==◌,
  length-append, All, ◌≡◌, refl, arith, append_assoc, append-nil, Bool-cases, inl, inr, ==_iff,
}
use protowire_rust.Wire.Types.{WireType, Limits, ok}
use protowire_rust.Wire.Reader
use protowire_rust.Wire.Reader.{Reader}
use protowire_rust.Wire.Bytes.{sign_extend}
use protowire_rust.Wire.Varint.{varint_bytes, varint_reads}
use protowire_rust.Wire.Numbers.{tag_bytes, IsFieldNumber}
use protowire_rust.Wire.Fields.{delimited, bytes_view_reads}
use protowire_rust.Codec.Runs.{
  at_pos, Decodes, Decodes-nil, Decodes-append, Decodes-field, read_message-Decodes,
}
use protowire_rust.Envelope.Map.{insert_new, contains_key, IsFresh}
use protowire_rust.Envelope.Defs.{
  Text, FieldError, AppError, Envelope, default_app_error, default_envelope,
}
use protowire_rust.Envelope.Format.{
  field_error_message, metadata_entry_message, check_entry, merge_app_error, app_error_message,
  merge_envelope, envelope_message,
}
use protowire_rust.Envelope.Layout.{
  field_bytes, text_bytes, texts_bytes, field_error_bytes, details_bytes, entry_bytes,
  metadata_bytes, app_error_bytes, status_bytes, error_bytes, envelope_bytes,
}
use protowire_rust.Envelope.Parse.{
  IsText, FitsFieldError, FitsAppError, push_fits, text-Decodes, texts-Decodes, field_error-Decodes,
  entry-Decodes,
}

module _ (d : List ℕ) (depth : ℕ) (limits : Limits) (small : length d < 2 ^ 64)
    (deep : depth < limits.max_nesting_depth) where
  detail-Decodes :
      (e : AppError) (fe : FieldError)
      → FitsFieldError limits fe
      → length e.details < limits.max_repeated_count
      → Decodes d depth limits app_error_message
          (field_bytes 4 (field_error_bytes fe))
          e
          (record e { details = e.details ++ (fe ∷ []) })
  unfolding field_bytes merge_app_error
  detail-Decodes e fe fits room =
      let bs = field_error_bytes fe in
      Decodes-field d depth limits app_error_message 4 WireType.length_delimited (delimited bs) e
        (record e { details = e.details ++ (fe ∷ []) }) (omega arith)
        (λ p rest ahead. rw (
          read_message-Decodes d depth limits bs p rest small ahead field_error_message fe
              (field_error-Decodes d (depth + 1) limits small fe fits) deep,
          push_fits e.details fe (at_pos d depth limits (p + length (delimited bs))) room,
        ))

  details-Decodes :
      (e : AppError) (fes : List FieldError)
      → All (FitsFieldError limits) fes
      → length e.details + length fes ≤ limits.max_repeated_count
      → Decodes d depth limits app_error_message
          (details_bytes fes)
          e
          (record e { details = e.details ++ fes })
  unfolding details_bytes
  details-Decodes e [] fits count = rw (append-nil e.details) (Decodes-nil d depth limits e)
  details-Decodes e (fe ∷ fes) (fit, fits) count =
      let e' : AppError = record e { details = e.details ++ (fe ∷ []) } in
      rw (← append_assoc e.details (fe ∷ []) fes) (
        Decodes-append d depth limits (field_bytes 4 (field_error_bytes fe)) (details_bytes fes) e
          e' (record e' { details = e'.details ++ fes }) (detail-Decodes e fe fit (omega arith))
          (details-Decodes e' fes fits (omega (arith, length-append e.details (fe ∷ [])))))

  check_entry_fits :
      (k : Text) (m : List (Text × Text)) (r : Reader)
      → length m < r.limits.max_repeated_count
      → check_entry k m r ≡ ok tt
  unfolding check_entry Reader.check_repeated
  check_entry_fits k m r h = ground arith

  metadata_entry-Decodes :
      (e : AppError) (k v : Text)
      → IsText k × IsText v
      → contains_key k e.metadata ≡ false
      → length e.metadata < limits.max_repeated_count
      → Decodes d depth limits app_error_message
          (field_bytes 5 (entry_bytes k v))
          e
          (record e { metadata = e.metadata ++ ((k, v) ∷ []) })
  unfolding field_bytes merge_app_error
  metadata_entry-Decodes e k v (hk, hv) new room =
      let bs = entry_bytes k v in
      Decodes-field d depth limits app_error_message 5 WireType.length_delimited (delimited bs) e
        (record e { metadata = e.metadata ++ ((k, v) ∷ []) }) (omega arith)
        (λ p rest ahead. rw (
          read_message-Decodes d depth limits bs p rest small ahead metadata_entry_message
              (record { key = k; value = v }) (entry-Decodes d (depth + 1) limits small k v hk hv)
              deep,
          check_entry_fits k e.metadata (at_pos d depth limits (p + length (delimited bs))) room,
          insert_new k v e.metadata new,
        ))

  metadata-Decodes :
      (e : AppError) (m : List (Text × Text))
      → All (λ (x : Text × Text). IsText x.0 × IsText x.1) m
      → IsFresh e.metadata m
      → length e.metadata + length m ≤ limits.max_repeated_count
      → Decodes d depth limits app_error_message
          (metadata_bytes m)
          e
          (record e { metadata = e.metadata ++ m })
  unfolding metadata_bytes
  metadata-Decodes e [] texts fresh count =
      rw (append-nil e.metadata) (Decodes-nil d depth limits e)
  metadata-Decodes e ((k, v) ∷ m) (text, texts) (new, fresh) count =
      let e' : AppError = record e { metadata = e.metadata ++ ((k, v) ∷ []) } in
      rw (← append_assoc e.metadata ((k, v) ∷ []) m) (
        Decodes-append d depth limits (field_bytes 5 (entry_bytes k v)) (metadata_bytes m) e e'
          (record e' { metadata = e'.metadata ++ m })
          (metadata_entry-Decodes e k v text new (omega arith))
          (metadata-Decodes e' m texts fresh
            (omega (arith, length-append e.metadata ((k, v) ∷ [])))))

  app_error-Decodes :
      (e : AppError)
      → FitsAppError limits e
      → Decodes d depth limits app_error_message (app_error_bytes e) default_app_error e
  unfolding app_error_bytes merge_app_error
  app_error-Decodes e fits =
      let num : IsFieldNumber 1 × IsFieldNumber 2 × IsFieldNumber 3 = omega arith in
      let m = app_error_message in
      let e1 : AppError = record default_app_error { code = e.code } in
      let e2 : AppError = record e1 { message = e.message } in
      let e3 : AppError = record e2 { args = e.args } in
      let e4 : AppError = record e3 { details = e.details } in
      Decodes-append d depth limits _ (metadata_bytes e.metadata) default_app_error e4 e
        (Decodes-append d depth limits _ (details_bytes e.details) default_app_error e3 e4
          (Decodes-append d depth limits _ (texts_bytes 3 e.args) default_app_error e2 e3
            (Decodes-append d depth limits (text_bytes 1 e.code) (text_bytes 2 e.message)
              default_app_error e1 e2
              (text-Decodes d depth limits small m 1 e.code
                (λ s. record default_app_error { code = s }) num.0 fits.code_text (λ r. refl))
              (text-Decodes d depth limits small m 2 e.message (λ s. record e1 { message = s })
                num.1 fits.message_text (λ r. refl)))
            (texts-Decodes d depth limits small m 3 [] e.args (λ ss. record e2 { args = ss }) num.2
              fits.args_text (omega (arith, fits.args_count)) (λ args r. refl)))
          (details-Decodes e3 e.details fits.details_fit (omega (arith, fits.details_count))))
        (metadata-Decodes e4 e.metadata fits.metadata_text fits.distinct
          (omega (arith, fits.metadata_count)))

-- The error of an envelope, if there is one, fits.
abbrev pub FitsError : Limits → Option AppError → Type 0
FitsError l none = Unit
FitsError l (some a) = FitsAppError l a

pub record FitsEnvelope (l : Limits) (e : Envelope) : Type 0 where
  pub word : e.status < 2 ^ 32
  pub transport_text : IsText e.transport_error
  pub error_fits : FitsError l e.error

module _ (d : List ℕ) (limits : Limits) (small : length d < 2 ^ 64)
    (deep : 2 ≤ limits.max_nesting_depth) where
  status_field-Decodes :
      (e : Envelope) (status : ℕ)
      → status < 2 ^ 32
      → Decodes d 0 limits envelope_message
          (tag_bytes 1 WireType.varint ++ varint_bytes (sign_extend status))
          e
          (record e { status = status })
  unfolding merge_envelope
  status_field-Decodes e status word =
      let wide : sign_extend status < 2 ^ 64 = ground arith in
      let back : sign_extend status % 2 ^ 32 ≡ status = ground arith in
      Decodes-field d 0 limits envelope_message 1 WireType.varint
        (varint_bytes (sign_extend status)) e (record e { status = status }) (omega arith)
        (λ p rest ahead.
          rw (varint_reads (sign_extend status) (at_pos d 0 limits p) rest wide ahead, back))

  status-Decodes :
      (status : ℕ)
      → status < 2 ^ 32
      → Decodes d 0 limits envelope_message
          (status_bytes status)
          default_envelope
          (record default_envelope { status = status })
  unfolding status_bytes
  status-Decodes status word = elim (Bool-cases (status == 0)) [
    | inl zero ↦ rw (zero, (==_iff status 0).0 zero) (Decodes-nil d 0 limits default_envelope)
    | inr other ↦ rw other (status_field-Decodes default_envelope status word)
  ]

  payload-Decodes :
      (e : Envelope) (b : List ℕ)
      → e.payload ≡ []
      → Decodes d 0 limits envelope_message (text_bytes 3 b) e (record e { payload = b })
  unfolding text_bytes field_bytes merge_envelope Reader.bytes
  payload-Decodes e [] empty = rw (← empty) (Decodes-nil d 0 limits e)
  payload-Decodes e (x ∷ b) empty =
      Decodes-field d 0 limits envelope_message 3 WireType.length_delimited (delimited (x ∷ b)) e
        (record e { payload = x ∷ b }) (omega arith)
        (λ p rest ahead. rw (bytes_view_reads (x ∷ b) (at_pos d 0 limits p) rest small ahead))

  error-Decodes :
      (e : Envelope) (o : Option AppError)
      → e.error ≡ none
      → FitsError limits o
      → Decodes d 0 limits envelope_message (error_bytes o) e (record e { error = o })
  unfolding error_bytes field_bytes merge_envelope
  error-Decodes e none empty fits = rw (← empty) (Decodes-nil d 0 limits e)
  error-Decodes e (some a) empty fits =
      let bs = app_error_bytes a in
      Decodes-field d 0 limits envelope_message 4 WireType.length_delimited (delimited bs) e
        (record e { error = some a }) (omega arith)
        (λ p rest ahead. rw (
          read_message-Decodes d 0 limits bs p rest small ahead app_error_message a
            (app_error-Decodes d (0 + 1) limits small (omega arith) a fits) (omega arith)))

  pub envelope-Decodes :
      (e : Envelope)
      → FitsEnvelope limits e
      → Decodes d 0 limits envelope_message (envelope_bytes e) default_envelope e
  unfolding envelope_bytes merge_envelope
  envelope-Decodes e fits =
      let e1 : Envelope = record default_envelope { status = e.status } in
      let e2 : Envelope = record e1 { transport_error = e.transport_error } in
      let e3 : Envelope = record e2 { payload = e.payload } in
      Decodes-append d 0 limits _ (error_bytes e.error) default_envelope e3 e
        (Decodes-append d 0 limits _ (text_bytes 3 e.payload) default_envelope e2 e3
          (Decodes-append d 0 limits (status_bytes e.status) (text_bytes 2 e.transport_error)
            default_envelope e1 e2 (status-Decodes e.status fits.word)
            (text-Decodes d 0 limits small envelope_message 2 e.transport_error
              (λ s. record e1 { transport_error = s }) (omega arith) fits.transport_text
              (λ r. refl)))
          (payload-Decodes e2 e.payload refl))
        (error-Decodes e3 e.error refl fits.error_fits)
