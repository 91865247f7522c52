-- ===== src/Envelope/Format.antt =====
-- crates/protowire-envelope/src/codec.rs: the binary format of the three structs and of one entry
-- of `AppError.metadata`, as instances of the trait `Message`.
use protowire_rust.Prelude.{
  ℕ, ◌%◌, ◌^◌, List, [], ◌∷◌, Option, none, some, ◌==◌, if◌then◌else◌, length,
}
use protowire_rust.Wire.Types.{Result, ok, ◌>>=◌, WireType}
use protowire_rust.Wire.Writer
use protowire_rust.Wire.Writer.{Writer}
use protowire_rust.Wire.Reader
use protowire_rust.Wire.Reader.{Reader}
use protowire_rust.Codec.{Message, ◌>>=?◌, write_message, read_message, write_map_entry, str_entry}
use protowire_rust.Envelope.Map.{insert, contains_key}
use protowire_rust.Envelope.Defs.{
  Text, FieldError, AppError, Envelope, default_field_error, default_app_error, default_envelope,
  is_empty,
}

-- `w.tag(n, WireType::LengthDelimited); w.string(s);`
unfoldable pub write_string_field : ℕ → Text → Writer → Option Writer
write_string_field n s w =
    Writer.tag n WireType.length_delimited w >>=? λ w'. some (Writer.string s w')

-- The same, for a text that is not empty.
unfoldable pub write_text : ℕ → Text → Writer → Option Writer
unfolding write_string_field
write_text n s w = if is_empty s then some w else write_string_field n s w

-- The loop over repeated strings.
unfoldable pub write_texts : ℕ → List Text → Writer → Option Writer
unfolding write_string_field
write_texts n [] w = some w
write_texts n (s ∷ ss) w = write_string_field n s w >>=? write_texts n ss

-- `self.field = r.string()?`, and an unknown field's `r.skip(wt)?`
abbrev pub set_string : {M : Type 0} → (Text → M) → Reader → Result (M × Reader)
set_string update r = do (s, r') ← Reader.string r; ok (update s, r')

abbrev pub skip_field : {M : Type 0} → WireType → M → Reader → Result (M × Reader)
skip_field wt msg r = do r' ← Reader.skip wt r; ok (msg, r')

-- `let arg = r.string()?; r.push_element(&mut self.args, arg)?;`
abbrev pub push_string : {M : Type 0} → (List Text → M) → List Text → Reader → Result (M × Reader)
push_string update args r = do
  (arg, r') ← Reader.string r
  args' ← Reader.push_element args arg r'
  ok (update args', r')

unfoldable pub encode_field_error : FieldError → Writer → Option Writer
unfolding write_text write_texts
encode_field_error e w =
    write_text 1 e.field w
    >>=? write_text 2 e.code
    >>=? write_text 3 e.message
    >>=? write_texts 4 e.args

unfoldable pub merge_field_error : ℕ → WireType → FieldError → Reader → Result (FieldError × Reader)
merge_field_error num wt e r =
    if num == 1
    then set_string (λ s. record e { field = s }) r
    else if num == 2
    then set_string (λ s. record e { code = s }) r
    else if num == 3
    then set_string (λ s. record e { message = s }) r
    else if num == 4
    then push_string (λ ss. record e { args = ss }) e.args r
    else skip_field wt e r

instance abbrev pub field_error_message : Message FieldError
field_error_message = record {
  default = default_field_error;
  encode_to = encode_field_error;
  merge_field = merge_field_error;
}

pub record MetadataEntry : Type 0 where
  pub key : Text
  pub value : Text

unfoldable pub encode_metadata_entry : MetadataEntry → Writer → Option Writer
unfolding write_string_field
encode_metadata_entry e w = write_string_field 1 e.key w >>=? write_string_field 2 e.value

unfoldable pub merge_metadata_entry :
    ℕ → WireType → MetadataEntry → Reader → Result (MetadataEntry × Reader)
merge_metadata_entry num wt e r =
    if num == 1
    then set_string (λ s. record e { key = s }) r
    else if num == 2
    then set_string (λ s. record e { value = s }) r
    else skip_field wt e r

instance abbrev pub metadata_entry_message : Message MetadataEntry
metadata_entry_message = record {
  default = record { key = []; value = [] };
  encode_to = encode_metadata_entry;
  merge_field = merge_metadata_entry;
}

-- The loops over `details` and `metadata`.
unfoldable pub write_details : List FieldError → Writer → Option Writer
write_details [] w = some w
write_details (fe ∷ fes) w = write_message 4 fe w >>=? write_details fes

unfoldable pub write_metadata : List (Text × Text) → Writer → Option Writer
write_metadata [] w = some w
write_metadata ((k, v) ∷ m) w =
    write_map_entry ⦃k = str_entry⦄ ⦃v = str_entry⦄ 5 k v w >>=? write_metadata m

unfoldable pub encode_app_error : AppError → Writer → Option Writer
unfolding write_text write_texts write_details write_metadata
encode_app_error e w =
    write_text 1 e.code w
    >>=? write_text 2 e.message
    >>=? write_texts 3 e.args
    >>=? write_details e.details
    >>=? write_metadata e.metadata

-- The fourth and the fifth case of `AppError::merge_field`.
unfoldable pub merge_detail : AppError → Reader → Result (AppError × Reader)
merge_detail e r = do
  (detail, r') ← read_message ⦃m = field_error_message⦄ r
  details' ← Reader.push_element e.details detail r'
  ok (record e { details = details' }, r')

-- `check_repeated`, for a key that is not there.
unfoldable pub check_entry : Text → List (Text × Text) → Reader → Result (Unit {0})
check_entry key metadata r =
    if contains_key key metadata then ok tt else Reader.check_repeated (length metadata) r

unfoldable pub merge_metadata : AppError → Reader → Result (AppError × Reader)
unfolding check_entry
merge_metadata e r = do
  (entry, r') ← read_message ⦃m = metadata_entry_message⦄ r
  _ ← check_entry entry.key e.metadata r'
  ok (record e { metadata = insert entry.key entry.value e.metadata }, r')

unfoldable pub merge_app_error : ℕ → WireType → AppError → Reader → Result (AppError × Reader)
unfolding merge_detail merge_metadata
merge_app_error num wt e r =
    if num == 1
    then set_string (λ s. record e { code = s }) r
    else if num == 2
    then set_string (λ s. record e { message = s }) r
    else if num == 3
    then push_string (λ ss. record e { args = ss }) e.args r
    else if num == 4
    then merge_detail e r
    else if num == 5
    then merge_metadata e r
    else skip_field wt e r

instance abbrev pub app_error_message : Message AppError
app_error_message = record {
  default = default_app_error;
  encode_to = encode_app_error;
  merge_field = merge_app_error;
}

-- `if self.status != 0 { w.tag(1, WireType::Varint); w.varint_i32(self.status); }`
unfoldable pub write_status : ℕ → Writer → Option Writer
write_status status w =
    if status == 0
    then some w
    else Writer.tag 1 WireType.varint w >>=? λ w'. some (Writer.varint_i32 status w')

unfoldable pub write_payload : List ℕ → Writer → Option Writer
write_payload payload w =
    if is_empty payload
    then some w
    else Writer.tag 3 WireType.length_delimited w >>=? λ w'. some (Writer.bytes payload w')

unfoldable pub write_error : Option AppError → Writer → Option Writer
write_error none w = some w
write_error (some e) w = write_message 4 e w

unfoldable pub encode_envelope : Envelope → Writer → Option Writer
unfolding write_status write_text write_payload write_error
encode_envelope e w =
    write_status e.status w
    >>=? write_text 2 e.transport_error
    >>=? write_payload e.payload
    >>=? write_error e.error

-- `self.status = r.varint()? as i32`, and the cases for the data and the error
unfoldable pub merge_status : Envelope → Reader → Result (Envelope × Reader)
merge_status e r = do (v, r') ← Reader.varint r; ok (record e { status = v % 2 ^ 32 }, r')

unfoldable pub merge_payload : Envelope → Reader → Result (Envelope × Reader)
merge_payload e r = do (b, r') ← Reader.bytes r; ok (record e { payload = b }, r')

unfoldable pub merge_error : Envelope → Reader → Result (Envelope × Reader)
merge_error e r = do
  (a, r') ← read_message ⦃m = app_error_message⦄ r
  ok (record e { error = some a }, r')

unfoldable pub merge_envelope : ℕ → WireType → Envelope → Reader → Result (Envelope × Reader)
unfolding merge_status merge_payload merge_error
merge_envelope num wt e r =
    if num == 1
    then merge_status e r
    else if num == 2
    then set_string (λ s. record e { transport_error = s }) r
    else if num == 3
    then merge_payload e r
    else if num == 4
    then merge_error e r
    else skip_field wt e r

instance abbrev pub envelope_message : Message Envelope
envelope_message = record {
  default = default_envelope;
  encode_to = encode_envelope;
  merge_field = merge_envelope;
}
