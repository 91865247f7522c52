-- ===== src/Pxf/Format/Literals.antt =====
-- crates/protowire-pxf/src: the bytes literals of format.rs against `next_token` of lexer.rs.
use protowire_rust.Prelude.{
  ℕ, suc, ◌+◌, ◌-◌, ◌*◌, ◌/◌, ◌≤◌, ◌<◌, List, [], ◌∷◌, ◌++◌, false, ◌≡◌, refl, sym, ap, ◌∙◌, arith,
  length, length-append, length-drop, take, take-append, drop, All, some, append_assoc,
}
use mathlib.Core.Path.{ap₂}
use protowire_rust.Pxf.Token.{Position, Token, TokenKind}
use protowire_rust.Pxf.Token
use protowire_rust.Pxf.Ast.{BytesVal, Value}
use protowire_rust.Pxf.Lexer.Cursor.{
  Lexer, returns, advance, peek, peek_at, at_end, since, skip_spaces, current_pos,
}
use protowire_rust.Pxf.Lexer.Place.{loop_halts}
use protowire_rust.Pxf.Lexer.Quoted.{bytes_loop, lex_bytes}
use protowire_rust.Pxf.Lexer.Next.{next_token, dispatch}
use protowire_rust.Pxf.Format.{encode_base64, format_value}
use protowire_rust.Pxf.Format.Valid.{is_valid_base64-encode_base64}
use protowire_rust.Pxf.Parser.Values.{scalar}
use protowire_rust.Pxf.Format.Base64.{decoders-encode_base64}
use protowire_rust.Pxf.Format.Quoting.{At, Moved, advance-Moved, Moved-trans}
use protowire_rust.Pxf.Format.Strings.{peeks, next_token_here}
use protowire_rust.Pxf.Format.Literal.{
  encode_base64-IsInner, ascii-is_utf8, advance_limit, closing_round, bytes_loop-Runs,
}

-- The text between the quotes.
since-take :
    (t rest : List ℕ) (start : ℕ) (lx q : Lexer)
    → At lx (t ++ rest)
    → q.input ≡ lx.input
    → start ≡ lx.pos
    → q.pos ≡ lx.pos + length t
    → since start q ≡ t
since-take t rest start lx q at same from far =
    ap₂ take {x = q.pos - start} {y = length t} (omega (arith, from, far)) (ap₂ drop from same ∙ at)
    ∙ take-append t rest

-- A token of a bytes literal, and the value that the parser makes of it.
pub record BytesToken (value after : List ℕ) (n : ℕ) (lx : Lexer) : Type 0 where
  pub q : Lexer
  pub moved : Moved lx q after n
  pub reads :
      next_token lx ≡ returns (Token.new TokenKind.bytes (encode_base64 value) (current_pos lx), q)
  pub parses :
      scalar TokenKind.bytes (Token.new TokenKind.bytes (encode_base64 value) (current_pos lx))
      ≡ some (Value.bytes (record { pos = current_pos lx; value = value }))

lex_bytes_opens :
    (pos : Position) (lx : Lexer)
    → at_end (advance lx) ≡ false
    → peek (advance lx) ≡ b'"'
    → lex_bytes pos lx
      ≡ bytes_loop (suc (length lx.input)) ((advance lx).pos + 1) pos (advance (advance lx))
unfolding lex_bytes
lex_bytes_opens pos lx e h = ground (arith, e, h)

no_blank : (lx : Lexer) → peek lx ≡ b'b' → skip_spaces lx ≡ lx
unfolding skip_spaces
no_blank lx e = loop_halts (length lx.input) _ lx (ground (arith, e))

one_literal :
    (pos : Position) (lx : Lexer)
    → peek lx ≡ b'b'
    → peek_at 1 lx ≡ b'"'
    → dispatch pos lx ≡ lex_bytes pos lx
unfolding dispatch
one_literal pos lx e h = ground (arith, e, h)

scalar-encode_base64 :
    (value : List ℕ) (pos : Position)
    → All (λ b. b < 256) value
    → scalar TokenKind.bytes (Token.new TokenKind.bytes (encode_base64 value) pos)
      ≡ some (Value.bytes (record { pos = pos; value = value }))
unfolding scalar
scalar-encode_base64 value pos small =
    ap (λ v. some (Value.bytes (record { pos = pos; value = v })))
      (decoders-encode_base64 value small).1

-- At a lexer with a printed bytes value behind it, the next token is the bytes token of its base64, the
-- lexer then stands behind the closing quote, and the parser makes of the token the value that was
-- printed. Each byte of the value is below 256, and three bytes for each four characters are within the
-- limit on bytes literals.
pub next_token-format_value :
    (bv : BytesVal) (indent : List ℕ) (level : ℕ) (after : List ℕ) (lx : Lexer)
    → All (λ b. b < 256) bv.value
    → length (encode_base64 bv.value) / 4 * 3 ≤ lx.max_bytes_literal
    → At lx (format_value indent (Value.bytes bv) level ++ after)
    → BytesToken bv.value after (length (format_value indent (Value.bytes bv) level)) lx
unfolding format_value
next_token-format_value bv indent level after lx small room at =
    let t = encode_base64 bv.value in
    let inner = encode_base64-IsInner bv.value in
    let rest = t ++ (b'"' ∷ after) in
    let opened : At lx (b'b' ∷ b'"' ∷ rest) =
      at ∙ ap (λ x. b'b' ∷ b'"' ∷ x) (append_assoc t (b'"' ∷ []) after) in
    let (here, inside, one, two) = peeks lx b'b' (b'"' ∷ rest) opened in
    let step = advance-Moved lx b'b' (b'"' ∷ rest) opened in
    let (here', inside', one', two') = peeks (advance lx) b'"' rest step.at in
    let step' = advance-Moved (advance lx) b'"' rest step.at in
    let start = (advance lx).pos + 1 in
    let kept = advance_limit (advance lx) ∙ advance_limit lx in
    let long : length t < suc (length lx.input) =
      omega
        (arith, length-drop lx.pos lx.input, ap length opened, length-append t (b'"' ∷ after)) in
    let more =
      bytes_loop-Runs t after (suc (length lx.input)) start (current_pos lx) (advance (advance lx))
        step'.at inner long (omega (arith, step'.pos)) (omega (arith, step'.pos, room, kept)) in
    let text =
      since-take t (b'"' ∷ after) start (advance (advance lx)) more.q step'.at more.same
        (sym step'.pos) more.moved.pos in
    let last = advance-Moved more.q b'"' after more.moved.at in
    record {
      q = advance more.q;
      moved =
          Moved-trans step (Moved-trans step' (Moved-trans more.moved last refl) refl)
            (omega (arith, length-append t (b'"' ∷ [])));
      reads =
          next_token_here lx (no_blank lx here) inside
          ∙ one_literal (current_pos lx) lx here one
          ∙ lex_bytes_opens (current_pos lx) lx inside' here'
          ∙ more.runs
          ∙ closing_round more.rounds start (current_pos lx) more.q t after more.moved.at
              (omega (arith, more.moved.pos, step'.pos, more.limit, kept, room)) text
              (ascii-is_utf8 t inner) (is_valid_base64-encode_base64 bv.value);
      parses = scalar-encode_base64 bv.value (current_pos lx) small;
    }
