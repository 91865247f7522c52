-- ===== src/Pxf/Limits.antt =====
-- crates/protowire-pxf/src/limits.rs: the limits of one call, and their defaults.
use protowire_rust.Prelude.{ℕ, ◌*◌, ◌^◌}

abbrev pub max_nesting_depth_default : ℕ
max_nesting_depth_default = 100

abbrev pub max_message_size_default : ℕ
max_message_size_default = 64 * 2 ^ 20

abbrev pub max_numeric_literal_digits_default : ℕ
max_numeric_literal_digits_default = 4096

abbrev pub max_bytes_literal_length_default : ℕ
max_bytes_literal_length_default = max_message_size_default

abbrev pub max_repeated_count_default : ℕ
max_repeated_count_default = max_message_size_default

abbrev pub max_big_float_exponent_default : ℕ
max_big_float_exponent_default = 16384

pub record Limits : Type 0 where
  pub max_message_size : ℕ
  pub max_nesting_depth : ℕ
  pub max_numeric_literal_digits : ℕ
  pub max_bytes_literal_length : ℕ
  pub max_repeated_count : ℕ
  pub max_big_float_exponent : ℕ

abbrev pub default : Limits
default = record {
  max_message_size = max_message_size_default;
  max_nesting_depth = max_nesting_depth_default;
  max_numeric_literal_digits = max_numeric_literal_digits_default;
  max_bytes_literal_length = max_bytes_literal_length_default;
  max_repeated_count = max_repeated_count_default;
  max_big_float_exponent = max_big_float_exponent_default;
}
