-- ===== src/Pxf/Lexer/Moves/Next.antt =====
-- lexer.rs, lines 92 to 202: termination of `next_token` and `collect_tokens`.
use protowire_rust.Prelude.{
  ℕ, zero, suc, ◌+◌, ◌≤◌, ◌<◌, List, [], ◌∷◌, Bool, true, false, not, ◌&&◌, ◌||◌, Option, none,
  some, ◌==◌, ◌≡◌, ◌≢◌, refl, ap, arith, length, bit_and, if◌then◌else◌,
}
use protowire_rust.Pxf.Token.{Position, Token, TokenKind}
use protowire_rust.Pxf.Chars.{is_digit, is_ident_start}
use protowire_rust.Pxf.Lexer.Cursor.{
  Lexer, Outcome, with_limits, advance, at_end, peek, peek_at, current_pos, skip_spaces, token,
}
use protowire_rust.Pxf.Lexer.Next.{
  punctuation, lex_illegal, lex_rest, dispatch, next_token, is_eof, collect_loop, collect_tokens,
}
use protowire_rust.Pxf.Lexer.Moves.{
  Ends, returned, panicked, >>=-Ends, elim-Ends, if-Ends, IsPast, IsPast-le, advance_further,
  advance_loop-IsPast, Gives, token_since-Gives,
}
use protowire_rust.Pxf.Lexer.Moves.Quoted.{
  lex_line_comment-Gives, lex_block_comment-Gives, lex_string-Gives, lex_triple_string-Gives,
  lex_bytes-Gives, lex_directive-Gives,
}
use protowire_rust.Pxf.Lexer.Moves.Words.{lex_number-Gives, lex_ident-Gives}

-- No kind, or one that is not the last.
GoesOn : Option TokenKind → Type 0
GoesOn none = Unit
GoesOn (some kind) = is_eof kind ≡ false

if-GoesOn : (b : Bool) (v w : Option TokenKind) → GoesOn v → GoesOn w → GoesOn (if b then v else w)
if-GoesOn true v w h k = h
if-GoesOn false v w h k = k

punctuation-GoesOn : (ch : ℕ) → GoesOn (punctuation ch)
unfolding punctuation is_eof GoesOn
punctuation-GoesOn ch = if-GoesOn (ch == b'{') _ _ refl (
    if-GoesOn (ch == b'}') _ _ refl (
      if-GoesOn (ch == b'[') _ _ refl (
        if-GoesOn (ch == b']') _ _ refl (
          if-GoesOn (ch == b'(') _ _ refl (
            if-GoesOn (ch == b')') _ _ refl (
              if-GoesOn (ch == b'=') _ _ refl
                (if-GoesOn (ch == b':') _ _ refl (if-GoesOn (ch == b',') _ _ refl tt))))))))

Ends-map :
    {A : Type 0} {P Q : A → Type 0} {m : Outcome A} → ((a : A) → P a → Q a) → Ends P m → Ends Q m
Ends-map f (returned {a = a} h) = returned (f a h)
Ends-map f panicked = panicked

module _ {s : List ℕ} {n : ℕ} where
  punctuation-Gives :
      (pos : Position) (v : Option TokenKind) (lx : Lexer) (other : Outcome (Token × Lexer))
      → GoesOn v
      → IsPast s n (advance lx)
      → Ends (Gives s n pos) other
      → Ends (Gives s n pos) (elim v as (λ _. Outcome (Token × Lexer)) [
        | some kind ↦ token kind (peek lx ∷ []) pos (advance lx)
        | none ↦ other
      ])
  unfolding GoesOn
  punctuation-Gives pos none lx other p h k = k
  punctuation-Gives pos (some kind) lx other p h k = returned (p, refl, h)

  lex_illegal-Gives :
      (pos : Position) {lx : Lexer}
      → at_end lx ≡ false
      → IsPast s n lx
      → Ends (Gives s (suc n) pos) (lex_illegal pos lx)
  unfolding lex_illegal is_eof
  lex_illegal-Gives pos {lx} more h = token_since-Gives TokenKind.illegal lx.pos pos refl (
      advance_loop-IsPast (length (advance lx).input) (λ q. bit_and (peek q) 0xc0 == 0x80)
        (advance_further more h))

module _ {s : List ℕ} {n : ℕ} where
  lex_rest-Gives :
      (pos : Position) {lx : Lexer}
      → at_end lx ≡ false
      → IsPast s n lx
      → Ends (Gives s (suc n) pos) (lex_rest pos lx)
  unfolding lex_rest
  lex_rest-Gives pos {lx} more h =
      punctuation-Gives pos (punctuation (peek lx)) lx _ (punctuation-GoesOn (peek lx))
        (advance_further more h)
        (if-Ends (peek lx == b'@') _ _ (λ _. lex_directive-Gives pos more h)
          λ _.
            if-Ends (peek lx == b'-' || peek lx == b'+' || is_digit (peek lx)) _ _
              (λ starts. lex_number-Gives pos more starts h)
              λ _.
                if-Ends (is_ident_start (peek lx)) _ _ (λ starts. lex_ident-Gives pos more starts h)
                  (λ _. lex_illegal-Gives pos more h))

  dispatch-Gives :
      (pos : Position) {lx : Lexer}
      → at_end lx ≡ false
      → IsPast s n lx
      → Ends (Gives s (suc n) pos) (dispatch pos lx)
  unfolding dispatch is_eof
  dispatch-Gives pos {lx} more h =
      if-Ends (peek lx == b'\n') _ _ (λ _. returned (refl, refl, advance_further more h))
        λ _.
          if-Ends (peek lx == b'#') _ _ (λ e. lex_line_comment-Gives pos more (ground (arith, e)) h)
            λ _.
              if-Ends (peek lx == b'/' && peek_at 1 lx == b'/') _ _
                (λ e. lex_line_comment-Gives pos more (ground (arith, e)) h)
                λ _.
                  if-Ends (peek lx == b'/' && peek_at 1 lx == b'*') _ _
                    (λ _. lex_block_comment-Gives pos more h)
                    λ _.
                      if-Ends (peek lx == b'"') _ _
                        (λ _.
                          if-Ends (peek_at 1 lx == b'"' && peek_at 2 lx == b'"') _ _
                            (λ _. lex_triple_string-Gives pos more h)
                            (λ _. lex_string-Gives pos more h))
                        λ _.
                          if-Ends (peek lx == b'b' && peek_at 1 lx == b'"') _ _
                            (λ _. lex_bytes-Gives pos more h) (λ _. lex_rest-Gives pos more h)

pub skip_spaces-IsPast :
    {s : List ℕ} {n : ℕ} {lx : Lexer} → IsPast s n lx → IsPast s n (skip_spaces lx)
unfolding skip_spaces
skip_spaces-IsPast {lx = lx} h =
    advance_loop-IsPast (length lx.input)
      (λ q. peek q == b' ' || peek q == b'\t' || peek q == b'\r') h

eof-is_eof : is_eof TokenKind.eof ≢ false
unfolding is_eof
eof-is_eof e = absurd (ground (arith, e))

-- A token stands where the lexer is behind the blanks. It leaves the same input, the cursor inside
-- it and not moved back, and behind where it was, unless the token is the last.
pub record IsStep (lx : Lexer) (r : Token × Lexer) : Type 0 where
  pub placed : r.0.pos ≡ current_pos (skip_spaces lx)
  pub past : IsPast lx.input lx.pos r.1
  pub further : is_eof r.0.kind ≡ false → lx.pos < r.1.pos

-- Wherever the lexer stands in its input, next_token returns or panics. A token that it returns has
-- the position at which the lexer stands behind the blanks, and leaves the lexer in the same input,
-- at or behind where it was, and behind it for every token but the last.
pub next_token_moves : (lx : Lexer) → lx.pos ≤ length lx.input → Ends (IsStep lx) (next_token lx)
unfolding next_token
next_token_moves lx h =
    let start = skip_spaces-IsPast (record { same = refl; from = omega arith; inside = h }) in
    if-Ends (at_end (skip_spaces lx)) _ _
      (λ _. returned (record { placed = refl; past = start; further = λ e. absurd (eof-is_eof e) }))
      (λ more.
        Ends-map
          (λ r g. record {
            placed = g.1;
            past = IsPast-le (omega arith) g.2;
            further = λ _. g.2.from;
          })
          (dispatch-Gives (current_pos (skip_spaces lx)) more start))

-- The tokens of an input: the last is the end, and it is the only one of its kind.
unfoldable pub is_stream : List Token → Bool
unfolding is_eof
is_stream [] = false
is_stream (t ∷ []) = is_eof t.kind
is_stream (t ∷ t' ∷ ts) = let rest = is_stream (t' ∷ ts) in not (is_eof t.kind) && rest

is_stream-cons :
    (t : Token) (ts : List Token)
    → is_eof t.kind ≡ false
    → is_stream ts ≡ true
    → is_stream (t ∷ ts) ≡ true
unfolding is_stream
is_stream-cons t [] e h = ground arith
is_stream-cons t (t' ∷ ts) e h = ground (arith, e, h)

collect_loop-Ends :
    (fuel : ℕ) (lx : Lexer)
    → lx.pos ≤ length lx.input
    → length lx.input < lx.pos + fuel
    → Ends (λ ts. is_stream ts ≡ true) (collect_loop fuel lx)
unfolding collect_loop is_stream
collect_loop-Ends zero lx h room = absurd (omega (arith, h, room))
collect_loop-Ends (suc fuel) lx h room =
    >>=-Ends (next_token lx) _ (next_token_moves lx h) λ r step.
      elim-Ends (is_eof r.0.kind) _ _ (λ last. returned last)
        λ other.
          >>=-Ends (collect_loop fuel r.1) _
            (collect_loop-Ends fuel r.1 step.past.inside
              (omega (arith, step.further other, ap length step.past.same, room)))
            (λ ts stream. returned (is_stream-cons r.0 ts other stream))

-- collect_tokens returns or panics on every input, and what it returns ends with the token of the
-- end, which stands nowhere else.
pub collect_tokens-Ends :
    (input : List ℕ) (max_bytes_literal : ℕ)
    → Ends (λ ts. is_stream ts ≡ true) (collect_tokens (with_limits input max_bytes_literal))
unfolding collect_tokens with_limits
collect_tokens-Ends input max_bytes_literal =
    collect_loop-Ends (suc (length input)) (with_limits input max_bytes_literal) (omega arith)
      (omega arith)
