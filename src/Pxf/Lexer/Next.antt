-- ===== src/Pxf/Lexer/Next.antt =====
-- crates/protowire-pxf/src/lexer.rs, lines 92 to 202: one token, and all of them.
use protowire_rust.Prelude.{
  ℕ, zero, suc, List, [], ◌∷◌, Bool, true, false, ◌&&◌, ◌||◌, Option, none, some, ◌==◌,
  if◌then◌else◌, bit_and, length,
}
use protowire_rust.Pxf.Token.{
  Position, Token, TokenKind, l_brace, r_brace, l_bracket, r_bracket, l_paren, r_paren, equals,
  colon, comma,
}
use protowire_rust.Pxf.Chars.{is_digit, is_ident_start}
use protowire_rust.Pxf.Lexer.Cursor.{
  Lexer, Outcome, returns, stuck, advance, advance_loop, advance_while, at_end, peek, peek_at,
  slice_to_string, token_since, token, current_pos, skip_spaces, ◌>>=◌,
}
use protowire_rust.Pxf.Lexer.Quoted.{
  lex_line_comment, lex_block_comment, lex_string, lex_triple_string, lex_bytes, lex_directive,
}
use protowire_rust.Pxf.Lexer.Number.{lex_number, lex_ident}

unfoldable pub punctuation : ℕ → Option TokenKind
punctuation ch =
    if ch == b'{'
    then some l_brace
    else if ch == b'}'
    then some r_brace
    else if ch == b'['
    then some l_bracket
    else if ch == b']'
    then some r_bracket
    else if ch == b'('
    then some l_paren
    else if ch == b')'
    then some r_paren
    else if ch == b'='
    then some equals
    else if ch == b':'
    then some colon
    else if ch == b','
    then some comma
    else none

-- Lines 178 to 188: the whole character, as an illegal token.
unfoldable pub lex_illegal : Position → Lexer → Outcome (Token × Lexer)
unfolding advance advance_loop slice_to_string
lex_illegal pos lx =
    token_since TokenKind.illegal lx.pos pos
      (advance_while (λ q. bit_and (peek q) 0xc0 == 0x80) (advance lx))

-- Lines 129 to 188, after comments, strings and bytes.
unfoldable pub lex_rest : Position → Lexer → Outcome (Token × Lexer)
unfolding punctuation advance lex_directive is_digit lex_number is_ident_start lex_ident lex_illegal
lex_rest pos lx =
    let ch = peek lx in
    elim (punctuation ch) [
      | some kind ↦ token kind (ch ∷ []) pos (advance lx)
      | none ↦
          if ch == b'@'
          then lex_directive pos lx
          else if ch == b'-' || ch == b'+' || is_digit ch
          then lex_number pos lx
          else if is_ident_start ch
          then lex_ident pos lx
          else lex_illegal pos lx
    ]

-- Lines 99 to 188, at a byte that is no blank.
unfoldable pub dispatch : Position → Lexer → Outcome (Token × Lexer)
unfolding advance lex_line_comment lex_block_comment lex_triple_string lex_string lex_bytes lex_rest
dispatch pos lx =
    let ch = peek lx in
    if ch == b'\n'
    then token TokenKind.newline [] pos (advance lx)
    else if ch == b'#'
    then lex_line_comment pos lx
    else if ch == b'/' && peek_at 1 lx == b'/'
    then lex_line_comment pos lx
    else if ch == b'/' && peek_at 1 lx == b'*'
    then lex_block_comment pos lx
    else if ch == b'"'
    then (if peek_at 1 lx == b'"' && peek_at 2 lx == b'"'
        then lex_triple_string pos lx
        else lex_string pos lx)
    else if ch == b'b' && peek_at 1 lx == b'"'
    then lex_bytes pos lx
    else lex_rest pos lx

unfoldable pub next_token : Lexer → Outcome (Token × Lexer)
unfolding skip_spaces current_pos dispatch
next_token lx =
    let start = skip_spaces lx in
    if at_end start
    then token TokenKind.eof [] (current_pos start) start
    else dispatch (current_pos start) start

unfoldable pub is_eof : TokenKind → Bool
is_eof TokenKind.eof = true
is_eof _ = false

-- Every token but the last takes a byte, so one round more than there are bytes is enough.
unfoldable pub collect_loop : (fuel : ℕ) → Lexer → Outcome (List Token)
unfolding next_token is_eof
collect_loop zero lx = stuck
collect_loop (suc fuel) lx = do
  (t, after) ← next_token lx
  elim (is_eof t.kind) [
    | true ↦ returns (t ∷ [])
    | false ↦ collect_loop fuel after >>= (λ ts. returns (t ∷ ts))
  ]

unfoldable pub collect_tokens : Lexer → Outcome (List Token)
unfolding collect_loop
collect_tokens lx = collect_loop (suc (length lx.input)) lx
