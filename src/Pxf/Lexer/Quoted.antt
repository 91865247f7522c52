-- ===== src/Pxf/Lexer/Quoted.antt =====
-- crates/protowire-pxf/src/lexer.rs, lines 274 to 520: comments, strings, bytes and directives.
use protowire_rust.Prelude.{
  ℕ, zero, suc, ◌+◌, ◌-◌, ◌*◌, ◌/◌, ◌%◌, ◌^◌, bit_or, List, [], ◌∷◌, ◌++◌, Bool, true, false, not,
  ◌&&◌, ◌||◌, Option, none, some, ltb, leb, ◌==◌, if◌then◌else◌, length, codes,
}
use protowire_rust.Wire.Utf8.{is_utf8}
use protowire_rust.Pxf.Token.{Position, Token, TokenKind}
use protowire_rust.Pxf.Chars.{hex_val, oct_val, valid_rune, encode_rune, is_ident_part}
use protowire_rust.Pxf.Dedent.{dedent}
use protowire_rust.Pxf.Literals.{is_valid_base64}
use protowire_rust.Pxf.Lexer.Cursor.{
  Lexer, Outcome, stuck, advance, advance_by, advance_loop, advance_while, at_end, peek, peek_at,
  since, slice_to_string, token_since, token, illegal, decimal, ◌>>=◌,
}

unfoldable pub lex_line_comment : Position → Lexer → Outcome (Token × Lexer)
unfolding advance_loop slice_to_string
lex_line_comment pos lx =
    token_since TokenKind.comment lx.pos pos (advance_while (λ q. not (peek q == b'\n')) lx)

-- The loop of lines 290 to 301. Every round takes a byte.
unfoldable pub block_loop : (fuel start : ℕ) → Position → Lexer → Outcome (Token × Lexer)
unfolding advance advance_by slice_to_string
block_loop zero start pos lx = stuck
block_loop (suc fuel) start pos lx = elim (ltb (lx.pos + 1) (length lx.input)) [
  | true ↦ elim (peek lx == b'*' && peek_at 1 lx == b'/') [
    | true ↦ token_since TokenKind.comment start pos (advance_by 2 lx)
    | false ↦ block_loop fuel start pos (advance lx)
  ]
  | false ↦ illegal (codes "unterminated block comment") pos lx
]

unfoldable pub lex_block_comment : Position → Lexer → Outcome (Token × Lexer)
unfolding advance_by block_loop
lex_block_comment pos lx = block_loop (suc (length lx.input)) lx.pos pos (advance_by 2 lx)

-- On `none` the source has not moved.
unfoldable pub read_hex_byte : Lexer → Option ℕ × Lexer
unfolding hex_val advance_by
read_hex_byte lx =
    if leb (length lx.input) (lx.pos + 1) then (none, lx) else elim (hex_val (peek lx)) [
      | none ↦ (none, lx)
      | some hi ↦ elim (hex_val (peek_at 1 lx)) [
        | none ↦ (none, lx)
        | some lo ↦ (some (bit_or (hi * 2 ^ 4) lo % 256), advance_by 2 lx)
      ]
    ]

-- The loop of lines 418 to 421, over a 32-bit `r`.
unfoldable pub hex_rune_loop : (n r : ℕ) → Lexer → Option ℕ × Lexer
unfolding hex_val advance
hex_rune_loop zero r lx = (some r, lx)
hex_rune_loop (suc n) r lx = elim (hex_val (peek lx)) [
  | none ↦ (none, lx)
  | some d ↦ hex_rune_loop n (bit_or (r * 2 ^ 4 % 2 ^ 32) d) (advance lx)
]

unfoldable pub read_hex_rune : ℕ → Lexer → Option ℕ × Lexer
unfolding hex_rune_loop
read_hex_rune n lx = if ltb (length lx.input) (lx.pos + n) then (none, lx) else hex_rune_loop n 0 lx

unfoldable pub read_oct_rest : ℕ → Lexer → Option ℕ × Lexer
unfolding oct_val advance_by
read_oct_rest first lx =
    if leb (length lx.input) (lx.pos + 1) then (none, lx) else elim (oct_val (peek lx)) [
      | none ↦ (none, lx)
      | some d1 ↦ elim (oct_val (peek_at 1 lx)) [
        | none ↦ (none, lx)
        | some d2 ↦
            (some (bit_or (bit_or ((first - b'0') * 2 ^ 6) (d1 * 2 ^ 3)) d2 % 256), advance_by 2 lx)
      ]
    ]

-- What an escape does: the bytes it pushes, or the message of the illegal token it returns.
pub data Escaped : Type 0 where
  pushes : List ℕ → Escaped
  refuses : List ℕ → Escaped

abbrev pub pushed : Option ℕ × Lexer → (ℕ → List ℕ) → List ℕ → Escaped × Lexer
pushed (none, lx) f message = (refuses message, lx)
pushed (some b, lx) f message = (pushes (f b), lx)

abbrev pub rune_of : Option ℕ × Lexer → Option ℕ × Lexer
unfolding valid_rune
rune_of (none, lx) = (none, lx)
rune_of (some r, lx) = (valid_rune r, lx)

-- The `match esc` of lines 338 to 394, at the byte after the escape letter.
unfoldable pub escape : ℕ → Lexer → Escaped × Lexer
unfolding read_hex_byte read_hex_rune read_oct_rest valid_rune encode_rune
escape esc lx =
    if esc == b'"' || esc == b'\\' || esc == b'\'' || esc == b'?'
    then (pushes (esc ∷ []), lx)
    else if esc == b'a'
    then (pushes (0x07 ∷ []), lx)
    else if esc == b'b'
    then (pushes (0x08 ∷ []), lx)
    else if esc == b'f'
    then (pushes (0x0c ∷ []), lx)
    else if esc == b'n'
    then (pushes (b'\n' ∷ []), lx)
    else if esc == b'r'
    then (pushes (b'\r' ∷ []), lx)
    else if esc == b't'
    then (pushes (b'\t' ∷ []), lx)
    else if esc == b'v'
    then (pushes (0x0b ∷ []), lx)
    else if esc == b'x'
    then pushed (read_hex_byte lx) (λ b. b ∷ [])
        (codes "invalid " ++ (b'\\' ∷ codes "x escape: expected 2 hex digits"))
    else if esc == b'0' || esc == b'1' || esc == b'2' || esc == b'3'
    then pushed (read_oct_rest esc lx) (λ b. b ∷ [])
        (codes "invalid octal escape: expected 3 octal digits")
    else if esc == b'u'
    then pushed (rune_of (read_hex_rune 4 lx)) encode_rune (
        codes "invalid "
        ++ (b'\\' ∷ codes "u escape: expected 4 hex digits forming a valid codepoint"))
    else if esc == b'U'
    then pushed (rune_of (read_hex_rune 8 lx)) encode_rune (
        codes "invalid "
        ++ (b'\\' ∷ codes "U escape: expected 8 hex digits forming a valid codepoint"))
    else (refuses (codes "unknown escape sequence " ++ (b'\\' ∷ encode_rune esc)), lx)

-- The rest of a round, where an escape may end the token.
unfoldable pub escape_step :
    Position
    → Escaped × Lexer
    → (List ℕ → Lexer → Outcome (Token × Lexer))
    → Outcome (Token × Lexer)
escape_step pos (pushes bs, lx) f = f bs lx
escape_step pos (refuses message, lx) f = illegal message pos lx

-- The loop of lines 308 to 396. Every round takes a byte.
unfoldable pub string_loop : (fuel : ℕ) → List ℕ → Position → Lexer → Outcome (Token × Lexer)
unfolding advance escape escape_step
string_loop zero buf pos lx = stuck
string_loop (suc fuel) buf pos lx = elim (at_end lx) [
  | true ↦ illegal (codes "unterminated string") pos lx
  | false ↦ elim (peek lx == b'"') [
    | true ↦
        if is_utf8 buf
        then token TokenKind.string buf pos (advance lx)
        else illegal (codes "string contains invalid UTF-8") pos (advance lx)
    | false ↦ elim (peek lx == b'\n') [
      | true ↦
          illegal
            (codes "raw newline in string: write "
              ++ (b'\\' ∷ codes "n, or use a triple-quoted string"))
            pos (advance lx)
      | false ↦ elim (peek lx == b'\\') [
        | false ↦ string_loop fuel (buf ++ (peek lx ∷ [])) pos (advance lx)
        | true ↦ elim (at_end (advance lx)) [
          | true ↦ illegal (codes "unterminated escape sequence") pos (advance lx)
          | false ↦
              escape_step pos (escape (peek (advance lx)) (advance (advance lx)))
                (λ bs q. string_loop fuel (buf ++ bs) pos q)
        ]
      ]
    ]
  ]
]

unfoldable pub lex_string : Position → Lexer → Outcome (Token × Lexer)
unfolding advance string_loop
lex_string pos lx = string_loop (suc (length lx.input)) [] pos (advance lx)

abbrev pub at_quotes : Lexer → Bool
at_quotes lx = peek lx == b'"' && peek_at 1 lx == b'"' && peek_at 2 lx == b'"'

-- The loop of lines 444 to 456. Every round takes a byte.
unfoldable pub triple_loop : (fuel start : ℕ) → Position → Lexer → Outcome (Token × Lexer)
unfolding advance advance_by slice_to_string dedent
triple_loop zero start pos lx = stuck
triple_loop (suc fuel) start pos lx = elim (ltb (lx.pos + 2) (length lx.input)) [
  | true ↦ elim (at_quotes lx) [
    | true ↦ do
      raw ← slice_to_string (since start lx)
      token TokenKind.string (dedent raw) pos (advance_by 3 lx)
    | false ↦ triple_loop fuel start pos (advance lx)
  ]
  | false ↦ illegal (codes "unterminated triple-quoted string") pos lx
]

unfoldable pub lex_triple_string : Position → Lexer → Outcome (Token × Lexer)
unfolding advance_by triple_loop
lex_triple_string pos lx =
    let inside = advance_by 3 lx in triple_loop (suc (length lx.input)) inside.pos pos inside

-- The loop of lines 467 to 494. Every round takes a byte.
unfoldable pub bytes_loop : (fuel start : ℕ) → Position → Lexer → Outcome (Token × Lexer)
unfolding advance slice_to_string is_valid_base64 decimal
bytes_loop zero start pos lx = stuck
bytes_loop (suc fuel) start pos lx = elim (at_end lx) [
  | true ↦ illegal (codes "unterminated bytes literal") pos lx
  | false ↦ elim (ltb lx.max_bytes_literal ((lx.pos - start) / 4 * 3)) [
    | true ↦
        illegal
          (codes "bytes literal decodes to more than MaxBytesLiteralLength="
            ++ decimal 20 lx.max_bytes_literal
            ++ codes " bytes")
          pos lx
    | false ↦ elim (peek lx == b'"') [
      | true ↦ do
        raw ← slice_to_string (since start lx)
        (if is_valid_base64 raw
            then token TokenKind.bytes raw pos (advance lx)
            else illegal (codes "invalid base64 in bytes literal") pos (advance lx))
      | false ↦ elim (peek lx == b'\n') [
        | true ↦ illegal (codes "unterminated bytes literal") pos lx
        | false ↦ bytes_loop fuel start pos (advance lx)
      ]
    ]
  ]
]

unfoldable pub lex_bytes : Position → Lexer → Outcome (Token × Lexer)
unfolding advance bytes_loop
lex_bytes pos lx =
    let after = advance lx in
    if at_end after || not (peek after == b'"')
    then illegal (codes "expected '" ++ (b'"' ∷ codes "' after b")) pos after
    else bytes_loop (suc (length lx.input)) (after.pos + 1) pos (advance after)

-- `name == "…"` on the bytes of two strings.
unfoldable pub text_eq : List ℕ → List ℕ → Bool
text_eq [] [] = true
text_eq [] (y ∷ ys) = false
text_eq (x ∷ xs) [] = false
text_eq (x ∷ xs) (y ∷ ys) = let rest = text_eq xs ys in x == y && rest

unfoldable pub directive_token : List ℕ → Position → Lexer → Outcome (Token × Lexer)
unfolding text_eq
directive_token name pos lx =
    if text_eq name []
    then illegal (codes "@") pos lx
    else if text_eq name (codes "type")
    then token TokenKind.at_type (codes "@type") pos lx
    else if text_eq name (codes "dataset")
    then token TokenKind.at_dataset (codes "@dataset") pos lx
    else if text_eq name (codes "proto")
    then token TokenKind.at_proto (codes "@proto") pos lx
    else token TokenKind.at_directive name pos lx

unfoldable pub lex_directive : Position → Lexer → Outcome (Token × Lexer)
unfolding advance advance_loop is_ident_part slice_to_string directive_token
lex_directive pos lx =
    let inside = advance lx in
    let after = advance_while (λ q. is_ident_part (peek q)) inside in
    do name ← slice_to_string (since inside.pos after); directive_token name pos after
