-- ===== src/Pxf/Lexer/Moves/Quoted.antt =====
-- lexer.rs, lines 274 to 520: termination of comments, strings, bytes and directives, and how far
-- they move the lexer.
use protowire_rust.Prelude.{
  ℕ, zero, suc, ◌+◌, ◌-◌, ◌*◌, ◌/◌, ◌<◌, List, [], ◌∷◌, ◌++◌, true, false, not, ◌&&◌, ◌||◌, ltb,
  ◌==◌, ◌≡◌, refl, ap, arith, length, codes,
}
use protowire_rust.Wire.Utf8.{is_utf8}
use protowire_rust.Pxf.Token.{Position, Token, TokenKind}
use protowire_rust.Pxf.Chars.{is_ident_part}
use protowire_rust.Pxf.Literals.{is_valid_base64}
use protowire_rust.Pxf.Lexer.Cursor.{
  Lexer, Outcome, advance, advance_by, at_end, peek, peek_at, slice_to_string, since,
}
use protowire_rust.Pxf.Lexer.Quoted.{
  lex_line_comment, block_loop, lex_block_comment, Escaped, pushes, refuses, escape, escape_step,
  string_loop, lex_string, triple_loop, lex_triple_string, bytes_loop, lex_bytes, directive_token,
  text_eq, lex_directive, at_quotes,
}
use protowire_rust.Pxf.Lexer.Next.{is_eof}
use protowire_rust.Pxf.Lexer.Moves.Escapes.{escape-IsPast}
use protowire_rust.Pxf.Lexer.Moves.{
  Ends, returned, >>=-Ends, elim-Ends, if-Ends, slice_to_string-Ends, IsPast, advance-IsPast,
  advance_further, advance_by-IsPast, advance_loop-IsPast, advance_while_further, Gives,
  token_since-Gives, IsPast-here, round, no_room,
}

module _ {s : List ℕ} {n : ℕ} where
  block_loop-Gives :
      (fuel start : ℕ) (pos : Position) {lx : Lexer}
      → IsPast s n lx
      → length s < lx.pos + fuel
      → Ends (Gives s n pos) (block_loop fuel start pos lx)
  unfolding block_loop is_eof
  block_loop-Gives zero start pos h room = absurd (no_room h room)
  block_loop-Gives (suc fuel) start pos {lx} h room =
      elim-Ends (ltb (lx.pos + 1) (length lx.input)) _ _
        (λ inside.
          let (next, left) = round fuel (ground arith) h room in
          elim-Ends (peek lx == b'*' && peek_at 1 lx == b'/') _ _
            (λ _. token_since-Gives TokenKind.comment start pos refl (advance_by-IsPast 2 h))
            (λ _. block_loop-Gives fuel start pos next left))
        (λ _. returned (refl, refl, h))

  escape_step-Gives :
      (pos : Position) (r : Escaped × Lexer) (f : List ℕ → Lexer → Outcome (Token × Lexer))
      → IsPast s n r.1
      → ((bs : List ℕ) → Ends (Gives s n pos) (f bs r.1))
      → Ends (Gives s n pos) (escape_step pos r f)
  unfolding escape_step is_eof
  escape_step-Gives pos (pushes bs, lx) f h k = k bs
  escape_step-Gives pos (refuses message, lx) f h k = returned (refl, refl, h)

  pub string_loop-Gives :
      (fuel : ℕ) (buf : List ℕ) (pos : Position) {lx : Lexer}
      → IsPast s n lx
      → length s < lx.pos + fuel
      → Ends (Gives s n pos) (string_loop fuel buf pos lx)
  unfolding string_loop is_eof
  string_loop-Gives zero buf pos h room = absurd (no_room h room)
  string_loop-Gives (suc fuel) buf pos {lx} h room =
      elim-Ends (at_end lx) _ _ (λ _. returned (refl, refl, h))
        λ more.
          let (next, left) = round fuel more h room in
          elim-Ends (peek lx == b'"') _ _
            (λ _.
              if-Ends (is_utf8 buf) _ _ (λ _. returned (refl, refl, next))
                (λ _. returned (refl, refl, next)))
            (λ _.
              elim-Ends (peek lx == b'\n') _ _ (λ _. returned (refl, refl, next))
                (λ _.
                  elim-Ends (peek lx == b'\\') _ _
                    (λ _.
                      elim-Ends (at_end (advance lx)) _ _ (λ _. returned (refl, refl, next))
                        λ _.
                          let behind =
                            escape-IsPast (peek (advance lx)) (advance-IsPast (IsPast-here next)) in
                          let after = escape-IsPast (peek (advance lx)) (advance-IsPast next) in
                          escape_step-Gives pos (escape (peek (advance lx)) (advance (advance lx)))
                            _ after
                            (λ bs.
                              string_loop-Gives fuel (buf ++ bs) pos after
                                (omega (arith, behind.from, left))))
                    (λ _. string_loop-Gives fuel (buf ++ (peek lx ∷ [])) pos next left)))

  pub triple_loop-Gives :
      (fuel start : ℕ) (pos : Position) {lx : Lexer}
      → IsPast s n lx
      → length s < lx.pos + fuel
      → Ends (Gives s n pos) (triple_loop fuel start pos lx)
  unfolding triple_loop is_eof
  triple_loop-Gives zero start pos h room = absurd (no_room h room)
  triple_loop-Gives (suc fuel) start pos {lx} h room =
      elim-Ends (ltb (lx.pos + 2) (length lx.input)) _ _
        (λ inside.
          let (next, left) = round fuel (ground arith) h room in
          elim-Ends (at_quotes lx) _ _
            (λ _.
              >>=-Ends (slice_to_string (since start lx)) _ (slice_to_string-Ends (since start lx))
                λ raw _. returned (refl, refl, advance_by-IsPast 3 h))
            (λ _. triple_loop-Gives fuel start pos next left))
        (λ _. returned (refl, refl, h))

  pub bytes_loop-Gives :
      (fuel start : ℕ) (pos : Position) {lx : Lexer}
      → IsPast s n lx
      → length s < lx.pos + fuel
      → Ends (Gives s n pos) (bytes_loop fuel start pos lx)
  unfolding bytes_loop is_eof
  bytes_loop-Gives zero start pos h room = absurd (no_room h room)
  bytes_loop-Gives (suc fuel) start pos {lx} h room =
      elim-Ends (at_end lx) _ _ (λ _. returned (refl, refl, h))
        λ more.
          let (next, left) = round fuel more h room in
          elim-Ends (ltb lx.max_bytes_literal ((lx.pos - start) / 4 * 3)) _ _
            (λ _. returned (refl, refl, h))
            (λ _.
              elim-Ends (peek lx == b'"') _ _
                (λ _.
                  >>=-Ends (slice_to_string (since start lx)) _
                    (slice_to_string-Ends (since start lx))
                    λ raw _.
                      if-Ends (is_valid_base64 raw) _ _ (λ _. returned (refl, refl, next))
                        (λ _. returned (refl, refl, next)))
                (λ _.
                  elim-Ends (peek lx == b'\n') _ _ (λ _. returned (refl, refl, h))
                    (λ _. bytes_loop-Gives fuel start pos next left)))

module _ {s : List ℕ} {n : ℕ} where
  pub lex_line_comment-Gives :
      (pos : Position) {lx : Lexer}
      → at_end lx ≡ false
      → not (peek lx == b'\n') ≡ true
      → IsPast s n lx
      → Ends (Gives s (suc n) pos) (lex_line_comment pos lx)
  unfolding lex_line_comment is_eof
  lex_line_comment-Gives pos {lx} more other h =
      token_since-Gives TokenKind.comment lx.pos pos refl
        (advance_while_further (λ q. not (peek q == b'\n')) more other h)

  pub lex_block_comment-Gives :
      (pos : Position) {lx : Lexer}
      → at_end lx ≡ false
      → IsPast s n lx
      → Ends (Gives s (suc n) pos) (lex_block_comment pos lx)
  unfolding lex_block_comment advance_by
  lex_block_comment-Gives pos {lx} more h =
      let inside = advance-IsPast (advance_further more h) in
      block_loop-Gives (suc (length lx.input)) lx.pos pos inside (omega (arith, ap length h.same))

  pub lex_string-Gives :
      (pos : Position) {lx : Lexer}
      → at_end lx ≡ false
      → IsPast s n lx
      → Ends (Gives s (suc n) pos) (lex_string pos lx)
  unfolding lex_string
  lex_string-Gives pos {lx} more h =
      string_loop-Gives (suc (length lx.input)) [] pos (advance_further more h)
        (omega (arith, ap length h.same))

  pub lex_triple_string-Gives :
      (pos : Position) {lx : Lexer}
      → at_end lx ≡ false
      → IsPast s n lx
      → Ends (Gives s (suc n) pos) (lex_triple_string pos lx)
  unfolding lex_triple_string advance_by
  lex_triple_string-Gives pos {lx} more h =
      let inside = advance-IsPast (advance-IsPast (advance_further more h)) in
      triple_loop-Gives (suc (length lx.input)) _ pos inside (omega (arith, ap length h.same))

  pub lex_bytes-Gives :
      (pos : Position) {lx : Lexer}
      → at_end lx ≡ false
      → IsPast s n lx
      → Ends (Gives s (suc n) pos) (lex_bytes pos lx)
  unfolding lex_bytes is_eof
  lex_bytes-Gives pos {lx} more h =
      let inside = advance_further more h in
      if-Ends (at_end (advance lx) || not (peek (advance lx) == b'"')) _ _
        (λ _. returned (refl, refl, inside))
        λ _.
          bytes_loop-Gives (suc (length lx.input)) _ pos (advance-IsPast inside)
            (omega (arith, ap length h.same))

  directive_token-Gives :
      (name : List ℕ) (pos : Position) {lx : Lexer}
      → IsPast s n lx
      → Ends (Gives s n pos) (directive_token name pos lx)
  unfolding directive_token is_eof
  directive_token-Gives name pos h =
      if-Ends (text_eq name []) _ _ (λ _. returned (refl, refl, h))
        λ _.
          if-Ends (text_eq name (codes "type")) _ _ (λ _. returned (refl, refl, h))
            λ _.
              if-Ends (text_eq name (codes "dataset")) _ _ (λ _. returned (refl, refl, h))
                λ _.
                  if-Ends (text_eq name (codes "proto")) _ _ (λ _. returned (refl, refl, h))
                    λ _. returned (refl, refl, h)

pub lex_directive-Gives :
    {s : List ℕ} {n : ℕ} (pos : Position) {lx : Lexer}
    → at_end lx ≡ false
    → IsPast s n lx
    → Ends (Gives s (suc n) pos) (lex_directive pos lx)
unfolding lex_directive
lex_directive-Gives pos {lx} more h =
    let after =
      advance_loop-IsPast (length (advance lx).input) (λ q. is_ident_part (peek q))
        (advance_further more h) in
    >>=-Ends (slice_to_string _) _ (slice_to_string-Ends _)
      λ name _. directive_token-Gives name pos after
