-- ===== src/Pxf/Lexer/Middle.antt =====
-- A lexer of lexer.rs that stands in the middle of a character, which line 388 leaves behind.
use protowire_rust.Prelude.{
  ℕ, zero, suc, ◌-◌, ◌≤◌, ◌<◌, List, [], ◌∷◌, ◌++◌, Bool, true, false, not, ◌&&◌, ◌==◌, length,
  get_or, take, drop, ◌≡◌, ◌∙◌, refl, arith, Bool-cases, inl, inr, bit_and, codes,
}
use protowire_rust.Wire.Utf8.{is_utf8, utf8_loop}
use protowire_rust.Pxf.Chars.{is_digit, is_ident_start, encode_rune}
use protowire_rust.Pxf.Token.{Position, Token, TokenKind, with_offset}
use protowire_rust.Pxf.Token
use protowire_rust.Pxf.Lexer.Cursor.{
  Lexer, panics, advance, advance_loop, advance_while, peek, at_end, pass, slice_to_string, since,
  skip_spaces, current_pos, new, returns,
}
use protowire_rust.Pxf.Lexer.Quoted.{string_loop, lex_string, escape_step, escape, refuses}
use protowire_rust.Pxf.Lexer.Next.{
  collect_tokens, collect_loop, is_eof, next_token, dispatch, lex_rest, lex_illegal, punctuation,
}
use protowire_rust.Pxf.Lexer.Place.{advance_input, advance_pos, loop_goes, loop_halts}

-- Loops of the lexer go forward, over the same input.
pub loop-Forward :
    (fuel : ℕ) (test : Lexer → Bool) (lx : Lexer)
    → ((advance_loop fuel test lx).input ≡ lx.input) × (lx.pos ≤ (advance_loop fuel test lx).pos)
unfolding advance_loop
loop-Forward zero test lx = (refl, omega arith)
loop-Forward (suc fuel) test lx = elim (Bool-cases (not (at_end lx) && test lx)) [
  | inl go ↦
      let here = advance_pos lx (ground arith) in
      rw (loop_goes fuel test lx go)
        (ground (arith, loop-Forward fuel test (advance lx), here, advance_input lx))
  | inr halt ↦ rw (loop_halts (suc fuel) test lx halt) (refl, omega arith)
]

utf8_refuses_middle : (c : ℕ) (s : List ℕ) → 0x80 ≤ c → c ≤ 0xbf → is_utf8 (c ∷ s) ≡ false
unfolding utf8_loop
utf8_refuses_middle c s lower upper = ground arith

slice_front_byte :
    (s : List ℕ) (p n : ℕ)
    → p < length s
    → take (suc n) (drop p s) ≡ get_or s p 0 ∷ take n (drop (suc p) s)
slice_front_byte [] p n h = ground arith
slice_front_byte (c ∷ s) zero n h = refl
slice_front_byte (c ∷ s) (suc p) n h = slice_front_byte s p n (omega arith)

module _ (lx : Lexer) (more : lx.pos < length lx.input) (lower : 0x80 ≤ peek lx)
    (upper : peek lx ≤ 0xbf) where
  slice_panics :
      (q : Lexer) → q.input ≡ lx.input → lx.pos < q.pos → slice_to_string (since lx.pos q) ≡ panics
  unfolding slice_to_string
  slice_panics q same further =
      let n = q.pos - lx.pos - 1 in
      let count : q.pos - lx.pos ≡ suc n = omega arith in
      rw (
        count,
        same,
        slice_front_byte lx.input lx.pos n more,
        utf8_refuses_middle (peek lx) (take n (drop (suc lx.pos) lx.input)) lower upper,
      )

  skip_spaces_stays : skip_spaces lx ≡ lx
  unfolding skip_spaces
  skip_spaces_stays = loop_halts (length lx.input) _ lx (ground arith)

  illegal_panics : (pos : Position) → lex_illegal pos lx ≡ panics
  unfolding lex_illegal
  illegal_panics pos =
      let test : Lexer → Bool = λ q. bit_and (peek q) 0xc0 == 0x80 in
      let f = loop-Forward (length (advance lx).input) test (advance lx) in
      rw (
        slice_panics (advance_while test (advance lx)) (f.0 ∙ advance_input lx)
          (omega (arith, f.1, advance_pos lx more)))

  rest_panics : (pos : Position) → lex_rest pos lx ≡ panics
  unfolding lex_rest punctuation is_digit is_ident_start
  rest_panics pos = ground (arith, illegal_panics pos)

  dispatch_panics : (pos : Position) → dispatch pos lx ≡ panics
  unfolding dispatch
  dispatch_panics pos = ground (arith, rest_panics pos)

  -- `next_token` panics wherever the byte at the cursor continues a character.
  pub next_token_panics : next_token lx ≡ panics
  unfolding next_token current_pos
  next_token_panics = rw skip_spaces_stays (ground (arith, dispatch_panics (current_pos lx)))

-- A quote, a backslash and a character of two bytes.
abbrev pub escaped_char : ℕ → ℕ → List ℕ
escaped_char c1 c2 = b'"' ∷ b'\\' ∷ c1 ∷ c2 ∷ []

module _ (c1 c2 : ℕ) (lead : 0xc2 ≤ c1) (lead' : c1 ≤ 0xdf) (low : 0x80 ≤ c2)
    (high : c2 ≤ 0xbf) where
  abbrev middle : Lexer
  middle = record (new (escaped_char c1 c2)) { pos = 3; col = 4 }

  abbrev refusal : List ℕ
  refusal = codes "unknown escape sequence " ++ (b'\\' ∷ encode_rune c1)

  escape_refuses : (lx : Lexer) → escape c1 lx ≡ (refuses refusal, lx)
  unfolding escape
  escape_refuses lx = ground arith

  abbrev refused : Token
  unfolding with_offset
  refused = Token.new TokenKind.illegal refusal (with_offset 1 1 0)

  char_taken : pass c1 (record (new (escaped_char c1 c2)) { pos = 2; col = 3 }) ≡ middle
  unfolding pass new
  char_taken = ground arith

  first_token : next_token (new (escaped_char c1 c2)) ≡ returns (refused, middle)
  unfolding next_token dispatch lex_string string_loop new skip_spaces escape_step advance pass
      current_pos
  first_token = rw (char_taken, escape_refuses middle) refl

  -- A quote, a backslash and a character of two bytes are UTF-8, and `collect_tokens` panics on
  -- them: after an unknown escape the lexer stands between the two bytes.
  pub collect_tokens_panics :
      (is_utf8 (escaped_char c1 c2) ≡ true) × (collect_tokens (new (escaped_char c1 c2)) ≡ panics)
  unfolding collect_tokens collect_loop utf8_loop new is_eof
  collect_tokens_panics =
      (ground arith, rw (first_token, next_token_panics middle (omega arith) low high) refl)
