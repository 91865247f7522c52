-- ===== src/Envelope/Defs.antt =====
-- crates/protowire-envelope/src/lib.rs: the three structs, their constructors and the queries.
use protowire_rust.Prelude.{
  ℕ, List, [], ◌∷◌, ◌++◌, Bool, true, false, not, ◌&&◌, Option, none, some, if◌then◌else◌,
}
use protowire_rust.Envelope.Map.{insert}

abbrev pub Text : Type 0
Text = List ℕ

pub record FieldError : Type 0 where
  pub field : Text
  pub code : Text
  pub message : Text
  pub args : List Text

pub record AppError : Type 0 where
  pub code : Text
  pub message : Text
  pub args : List Text
  pub details : List FieldError
  pub metadata : List (Text × Text)

-- `status` is the bit pattern of an i32.
pub record Envelope : Type 0 where
  pub status : ℕ
  pub transport_error : Text
  pub payload : List ℕ
  pub error : Option AppError

abbrev pub default_field_error : FieldError
default_field_error = record { field = []; code = []; message = []; args = [] }

abbrev pub default_app_error : AppError
default_app_error = record { code = []; message = []; args = []; details = []; metadata = [] }

abbrev pub default_envelope : Envelope
default_envelope = record { status = 0; transport_error = []; payload = []; error = none }

unfoldable pub new_field_error : Text → Text → Text → List Text → FieldError
new_field_error field code message args = record {
  field = field;
  code = code;
  message = message;
  args = args;
}

unfoldable pub new_app_error : Text → Text → List Text → AppError
new_app_error code message args = record {
  code = code;
  message = message;
  args = args;
  details = [];
  metadata = [];
}

unfoldable pub with_field : Text → Text → Text → List Text → AppError → AppError
unfolding new_field_error
with_field field code message args e = record e {
  details = e.details ++ (new_field_error field code message args ∷ []);
}

unfoldable pub with_meta : Text → Text → AppError → AppError
unfolding insert
with_meta key value e = record e { metadata = insert key value e.metadata }

unfoldable pub ok_envelope : ℕ → List ℕ → Envelope
ok_envelope status payload = record default_envelope { status = status; payload = payload }

unfoldable pub err_envelope : ℕ → Text → Text → List Text → Envelope
unfolding new_app_error
err_envelope status code message args = record default_envelope {
  status = status;
  error = some (new_app_error code message args);
}

unfoldable pub transport_err : Text → Envelope
transport_err message = record default_envelope { transport_error = message }

-- `is_empty` of a string, a byte vector or a list
abbrev pub is_empty {ℓ} : {A : Type ℓ} → List A → Bool
is_empty [] = true
is_empty (x ∷ xs) = false

abbrev pub is_none : {A : Type 0} → Option A → Bool
is_none none = true
is_none (some a) = false

unfoldable pub is_ok : Envelope → Bool
is_ok e = is_empty e.transport_error && is_none e.error

unfoldable pub is_transport_error : Envelope → Bool
is_transport_error e = not (is_empty e.transport_error)

unfoldable pub is_app_error : Envelope → Bool
is_app_error e = not (is_none e.error)

unfoldable pub error_code : Envelope → Text
error_code e = elim e.error [ none ↦ [] | some a ↦ a.code ]

-- `for fe in &err.details { out.insert(fe.field.as_str(), fe); }`
unfoldable pub index_details : List FieldError → List (Text × FieldError) → List (Text × FieldError)
unfolding insert
index_details [] out = out
index_details (fe ∷ rest) out = index_details rest (insert fe.field fe out)

unfoldable pub field_errors : Envelope → Option (List (Text × FieldError))
unfolding index_details
field_errors e = elim e.error [
  | none ↦ none
  | some a ↦ if is_empty a.details then none else some (index_details a.details [])
]
