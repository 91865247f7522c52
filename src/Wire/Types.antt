-- ===== src/Wire/Types.antt =====
-- crates/protowire-pb/src/wire.rs, lines 15 to 112: constants, limits, errors and wire types.
-- Numbers of Rust's u8, u32, u64 and usize are natural numbers; usize has 64 bits.
use protowire_rust.Prelude.{ℕ, zero, suc, ◌*◌, ◌^◌, ◌≡◌, refl, ◌⊎◌, inl, inr}

abbrev pub max_nesting_depth_default : ℕ
max_nesting_depth_default = 100

-- 64 << 20
abbrev pub max_message_size_default : ℕ
max_message_size_default = 64 * 2 ^ 20

abbrev pub max_repeated_count_default : ℕ
max_repeated_count_default = max_message_size_default

pub record Limits : Type 0 where
  pub max_message_size : ℕ
  pub max_nesting_depth : ℕ
  pub max_repeated_count : ℕ

abbrev pub default_limits : Limits
default_limits = record {
  max_message_size = max_message_size_default;
  max_nesting_depth = max_nesting_depth_default;
  max_repeated_count = max_repeated_count_default;
}

-- `invalid_utf8` carries no `FromUtf8Error`: nothing reads it.
pub data Error : Type 0 where
  truncated_varint varint_too_long truncated_fixed32 truncated_fixed64 : Error
  truncated_length_delim : Error
  invalid_tag : ℕ → Error
  unknown_wire_type : ℕ → Error
  group_not_supported invalid_utf8 nested_exceeds_buffer : Error
  overrun : ℕ → ℕ → Error
  depth_exceeded : ℕ → Error
  message_too_large : ℕ → ℕ → Error
  repeated_count_exceeded : ℕ → Error

-- Rust's `Result<T, Error>`. `stuck` is no Rust value: a loop of the model ran out of fuel.
pub data Result {ℓ} (A : Type ℓ) : Type ℓ where
  ok : A → Result A
  err : Error → Result A
  stuck : Result A

infixl 5 ◌>>=◌
abbrev pub ◌>>=◌ {ℓ κ} : {A : Type ℓ} {B : Type κ} → Result A → (A → Result B) → Result B
ok a >>= f = f a
err e >>= f = err e
stuck >>= f = stuck

-- Inversion of a chain that succeeded.
pub >>=-eq-ok {ℓ κ} :
    {A : Type ℓ} {B : Type κ} (r : Result A) (next : A → Result B) {y : B}
    → (r >>= next) ≡ ok y
    → (x : A) × (r ≡ ok x) × (next x ≡ ok y)
>>=-eq-ok (ok x) next h = (x, refl, h)
>>=-eq-ok (err e) next h = cc
>>=-eq-ok stuck f h = cc

pub >>=-eq-stuck {ℓ κ} :
    {A : Type ℓ} {B : Type κ} (m : Result A) (f : A → Result B)
    → (m >>= f) ≡ stuck
    → (m ≡ stuck) ⊎ ((a : A) × (m ≡ ok a) × (f a ≡ stuck))
>>=-eq-stuck (ok a) f h = inr (a, refl, h)
>>=-eq-stuck (err e) f h = cc
>>=-eq-stuck stuck f h = inl refl

pub ok-injective {ℓ} : {A : Type ℓ} {a b : A} → ok a ≡ ok b → a ≡ b
ok-injective e = cc

pub data WireType : Type 0 where
  varint fixed64 length_delimited start_group end_group fixed32 : WireType

-- `wire_type as u64`
abbrev pub wire_code : WireType → ℕ
wire_code varint = 0
wire_code fixed64 = 1
wire_code length_delimited = 2
wire_code start_group = 3
wire_code end_group = 4
wire_code fixed32 = 5

unfoldable pub from_u8 : ℕ → Result WireType
from_u8 zero = ok varint
from_u8 (suc zero) = ok fixed64
from_u8 (suc (suc zero)) = ok length_delimited
from_u8 (suc (suc (suc zero))) = ok start_group
from_u8 (suc (suc (suc (suc zero)))) = ok end_group
from_u8 (suc (suc (suc (suc (suc zero))))) = ok fixed32
from_u8 (suc (suc (suc (suc (suc (suc v)))))) =
    err (unknown_wire_type (suc (suc (suc (suc (suc (suc v)))))))
