-- ===== src/Tests/Format.antt =====
-- The formatter on small documents, and its theorems at concrete inputs.
use protowire_rust.Prelude.{ℕ, List, [], ◌∷◌, ◌++◌, codes, length, ◌≡◌, refl, arith, some}
use protowire_rust.Pxf.Ast.{Document, BytesVal, Value}
use protowire_rust.Pxf.Parser.State.{Result, ok, err, guard}
use protowire_rust.Pxf.Parser.State
use protowire_rust.Pxf.Parser.Bytes.{decode_base64, strict_decode_base64}
use protowire_rust.Pxf.Parser.Document.{parse}
use protowire_rust.Pxf.Lexer.Cursor.{Lexer, Outcome, returns, panics, stuck}
use protowire_rust.Pxf.Token.{Token}
use protowire_rust.Pxf.Lexer.Cursor
use protowire_rust.Pxf.Lexer.Next.{next_token}
use protowire_rust.Pxf.Format.{format, format_value, encode_base64, quote_string}
use protowire_rust.Pxf.Format.Base64.{decoders-encode_base64}
use protowire_rust.Pxf.Format.Literals.{BytesToken, next_token-format_value}
use protowire_rust.Pxf.Format.Strings.{StringToken, next_token-quote_string}
use protowire_rust.Wire.Utf8.{utf8_loop}

abbrev printed : Result Document → List ℕ
printed (ok d) = format d
printed (err pos reason) = codes "error"
printed State.panics = codes "panic"
printed State.stuck = codes "stuck"

abbrev round_trip : List ℕ → List ℕ
round_trip text = printed (parse text)

abbrev line : List ℕ
line = b'\n' ∷ []

nested_block :
    round_trip (codes "a { b = [1 2] }")
    ≡ codes "a {"
      ++ (line
          ++ (codes "  b = ["
              ++ (line
                  ++ (codes "    1,"
                      ++ (line
                          ++ (codes "    2"
                              ++ (line ++ (codes "  ]" ++ (line ++ (codes "}" ++ line))))))))))
unfolding format parse utf8_loop next_token guard
nested_block = refl

raw_bytes : round_trip (codes "raw = b\"SGVsbG8\"") ≡ codes "raw = b\"SGVsbG8=\"" ++ line
unfolding format parse utf8_loop next_token guard
raw_bytes = refl

-- A directive and its dataset are not printed.
dataset_dropped : round_trip (codes "@dataset T (a) (1)") ≡ []
unfolding format parse utf8_loop next_token guard
dataset_dropped = refl

directive_dropped : round_trip (codes "@d { } a = 1") ≡ codes "a = 1" ++ line
unfolding format parse utf8_loop next_token guard
directive_dropped = refl

abbrev hello : List ℕ
hello = 0x48 ∷ 0xff ∷ 0 ∷ 0x6c ∷ []

decoders-encode_base64_example :
    (strict_decode_base64 (encode_base64 hello) ≡ some hello)
    × (decode_base64 (encode_base64 hello) ≡ hello)
decoders-encode_base64_example =
    decoders-encode_base64 hello (omega arith, (omega arith, (omega arith, (omega arith, tt))))

abbrev quoted_text : List ℕ
quoted_text = codes "say \"no\""

abbrev before_quoted : Lexer
before_quoted = record {
  input = codes "k = " ++ (quote_string quoted_text ++ line);
  pos = 4;
  line = 1;
  col = 5;
  max_bytes_literal = 100;
}

next_token-quote_string_example :
    StringToken quoted_text line
      (Cursor.current_pos before_quoted)
      before_quoted
      (next_token before_quoted)
unfolding utf8_loop
next_token-quote_string_example =
    next_token-quote_string quoted_text line before_quoted refl refl refl

-- A literal of two digits and padding stands for one byte, and is refused where one byte is allowed.
abbrev one_byte : Lexer
one_byte = record { input = codes "b\"QQ==\""; pos = 0; line = 1; col = 1; max_bytes_literal = 1 }

abbrev outcome_text : Outcome (Token × Lexer) → List ℕ
outcome_text (returns (t, lx)) = t.value
outcome_text panics = codes "panic"
outcome_text stuck = codes "stuck"

one_byte_refused :
    outcome_text (next_token one_byte)
    ≡ codes "bytes literal decodes to more than MaxBytesLiteralLength=1 bytes"
unfolding next_token utf8_loop
one_byte_refused = refl

abbrev printed_bytes : BytesVal
printed_bytes = record { pos = Cursor.current_pos before_quoted; value = hello }

abbrev before_bytes : Lexer
before_bytes = record before_quoted {
  input = codes "k = " ++ (format_value [] (Value.bytes printed_bytes) 0 ++ line);
}

next_token-format_value_example :
    BytesToken hello line (length (format_value [] (Value.bytes printed_bytes) 0)) before_bytes
unfolding encode_base64
next_token-format_value_example =
    next_token-format_value printed_bytes [] 0 line before_bytes
      (omega arith, (omega arith, (omega arith, (omega arith, tt)))) (omega arith) refl
