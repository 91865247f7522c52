-- ===== src/Envelope/Parse.antt =====
-- What the decoder of crates/protowire-envelope/src/codec.rs reads from the bytes that `Layout`
-- describes, for values within the limits of the call.
use protowire_rust.Prelude.{
  ℕ, ◌+◌, ◌≤◌, ◌<◌, ◌^◌, List, [], ◌∷◌, ◌++◌, true, length, length-append, All, ◌≡◌, refl, ◌∙◌,
  arith, append_assoc, append-nil,
}
use protowire_rust.Wire.Types.{WireType, Limits, ok}
use protowire_rust.Wire.Utf8.{is_utf8}
use protowire_rust.Wire.Reader
use protowire_rust.Wire.Reader.{Reader}
use protowire_rust.Wire.Numbers.{IsFieldNumber}
use protowire_rust.Wire.Fields.{delimited, string_reads}
use protowire_rust.Codec.{Message}
use protowire_rust.Codec.Runs.{at_pos, Decodes, Decodes-nil, Decodes-append, Decodes-field}
use protowire_rust.Envelope.Map.{HasDistinctKeys}
use protowire_rust.Envelope.Defs.{Text, FieldError, AppError, default_field_error}
use protowire_rust.Envelope.Format.{
  set_string, push_string, merge_field_error, field_error_message, MetadataEntry,
  merge_metadata_entry, metadata_entry_message, app_error_message, envelope_message,
}
use protowire_rust.Envelope.Layout.{
  field_bytes, text_bytes, texts_bytes, field_error_bytes, entry_bytes,
}

abbrev pub IsText : Text → Type 0
IsText s = is_utf8 s ≡ true

-- The strings are UTF-8, and the repeated fields hold no more elements than the limit.
pub record FitsFieldError (l : Limits) (e : FieldError) : Type 0 where
  pub field_text : IsText e.field
  pub code_text : IsText e.code
  pub message_text : IsText e.message
  pub args_text : All IsText e.args
  pub args_count : length e.args ≤ l.max_repeated_count

pub record FitsAppError (l : Limits) (e : AppError) : Type 0 where
  pub code_text : IsText e.code
  pub message_text : IsText e.message
  pub args_text : All IsText e.args
  pub args_count : length e.args ≤ l.max_repeated_count
  pub details_fit : All (FitsFieldError l) e.details
  pub details_count : length e.details ≤ l.max_repeated_count
  pub metadata_text : All (λ (x : Text × Text). IsText x.0 × IsText x.1) e.metadata
  pub metadata_count : length e.metadata ≤ l.max_repeated_count
  pub distinct : HasDistinctKeys e.metadata

pub push_fits :
    {A : Type 0} (list : List A) (elem : A) (r : Reader)
    → length list < r.limits.max_repeated_count
    → Reader.push_element list elem r ≡ ok (list ++ (elem ∷ []))
unfolding Reader.push_element
push_fits list elem r h = ground arith

module _ (d : List ℕ) (depth : ℕ) (limits : Limits) (small : length d < 2 ^ 64) where
  -- A string field sets what `update` sets.
  pub field-Decodes :
      {M : Type 0} (m : Message M) (n : ℕ) (s : Text) (update : Text → M) (a : M)
      → IsFieldNumber n
      → IsText s
      → ((r : Reader) → m.merge_field n WireType.length_delimited a r ≡ set_string update r)
      → Decodes d depth limits m (field_bytes n s) a (update s)
  unfolding field_bytes
  field-Decodes m n s update a num text merge =
      Decodes-field d depth limits m n WireType.length_delimited (delimited s) a (update s) num
        (λ p rest ahead.
          let r = at_pos d depth limits p in merge r ∙ rw (string_reads s r rest small ahead text))

  -- An empty string is not written: it is what the message holds before.
  pub text-Decodes :
      {M : Type 0} (m : Message M) (n : ℕ) (s : Text) (update : Text → M)
      → IsFieldNumber n
      → IsText s
      → ((r : Reader)
          → m.merge_field n WireType.length_delimited (update []) r ≡ set_string update r)
      → Decodes d depth limits m (text_bytes n s) (update []) (update s)
  unfolding text_bytes
  text-Decodes m n [] update num text merge = Decodes-nil d depth limits (update [])
  text-Decodes m n (b ∷ bs) update num text merge =
      field-Decodes m n (b ∷ bs) update (update []) num text merge

  -- Repeated strings are appended, up to the limit.
  pub texts-Decodes :
      {M : Type 0} (m : Message M) (n : ℕ) (front ss : List Text) (update : List Text → M)
      → IsFieldNumber n
      → All IsText ss
      → length front + length ss ≤ limits.max_repeated_count
      → ((args : List Text) (r : Reader)
          → m.merge_field n WireType.length_delimited (update args) r ≡ push_string update args r)
      → Decodes d depth limits m (texts_bytes n ss) (update front) (update (front ++ ss))
  unfolding texts_bytes
  texts-Decodes m n front [] update num texts count merge =
      rw (append-nil front) (Decodes-nil d depth limits (update front))
  texts-Decodes m n front (s ∷ ss) update num (text, texts) count merge =
      rw (← append_assoc front (s ∷ []) ss) (
        Decodes-append d depth limits (field_bytes n s) (texts_bytes n ss) (update front)
          (update (front ++ (s ∷ []))) (update (front ++ (s ∷ []) ++ ss))
          (unfold field_bytes in
            Decodes-field d depth limits m n WireType.length_delimited (delimited s) (update front)
              (update (front ++ (s ∷ []))) num
              (λ p rest ahead.
                let r = at_pos d depth limits p in
                merge front r
                ∙ rw (
                  string_reads s r rest small ahead text,
                  push_fits front s (at_pos d depth limits (p + length (delimited s)))
                      (omega arith),
                )))
          (texts-Decodes m n (front ++ (s ∷ [])) ss update num texts
            (omega (arith, length-append front (s ∷ []))) merge))

  pub field_error-Decodes :
      (e : FieldError)
      → FitsFieldError limits e
      → Decodes d depth limits field_error_message (field_error_bytes e) default_field_error e
  unfolding field_error_bytes merge_field_error
  field_error-Decodes e fits =
      let num : IsFieldNumber 1 × IsFieldNumber 2 × IsFieldNumber 3 × IsFieldNumber 4 =
        omega arith in
      let m = field_error_message in
      let e1 : FieldError = record default_field_error { field = e.field } in
      let e2 : FieldError = record e1 { code = e.code } in
      let e3 : FieldError = record e2 { message = e.message } in
      Decodes-append d depth limits _ (texts_bytes 4 e.args) default_field_error e3 e
        (Decodes-append d depth limits _ (text_bytes 3 e.message) default_field_error e2 e3
          (Decodes-append d depth limits (text_bytes 1 e.field) (text_bytes 2 e.code)
            default_field_error e1 e2
            (text-Decodes m 1 e.field (λ s. record default_field_error { field = s }) num.0
              fits.field_text (λ r. refl))
            (text-Decodes m 2 e.code (λ s. record e1 { code = s }) num.1 fits.code_text
              (λ r. refl)))
          (text-Decodes m 3 e.message (λ s. record e2 { message = s }) num.2 fits.message_text
            (λ r. refl)))
        (texts-Decodes m 4 [] e.args (λ ss. record e3 { args = ss }) num.3 fits.args_text
          (omega (arith, fits.args_count)) (λ args r. refl))

  pub entry-Decodes :
      (k v : Text)
      → IsText k
      → IsText v
      → Decodes d depth limits metadata_entry_message
          (entry_bytes k v)
          (record { key = []; value = [] })
          (record { key = k; value = v })
  unfolding entry_bytes merge_metadata_entry
  entry-Decodes k v hk hv =
      let m = metadata_entry_message in
      let e0 : MetadataEntry = record { key = []; value = [] } in
      let e1 : MetadataEntry = record e0 { key = k } in
      let e2 : MetadataEntry = record e1 { value = v } in
      Decodes-append d depth limits (field_bytes 1 k) (field_bytes 2 v) e0 e1 e2
        (field-Decodes m 1 k (λ s. record e0 { key = s }) e0 (omega arith) hk (λ r. refl))
        (field-Decodes m 2 v (λ s. record e1 { value = s }) e1 (omega arith) hv (λ r. refl))
