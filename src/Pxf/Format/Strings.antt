-- ===== src/Pxf/Format/Strings.antt =====
-- crates/protowire-pxf/src: `quote_string` of format.rs against `next_token` of lexer.rs.
use protowire_rust.Prelude.{
  ℕ, zero, suc, ◌+◌, ◌<◌, List, [], ◌∷◌, ◌++◌, true, false, ◌&&◌, ◌==◌, ◌≡◌, refl, sym, ap, ◌∙◌,
  subst, arith, length, get_or, drop, append_assoc, length-append, length-drop, if◌then◌else◌,
}
use protowire_rust.Wire.Utf8.{is_utf8}
use protowire_rust.Pxf.Token.{Position, Token, TokenKind}
use protowire_rust.Pxf.Token
use protowire_rust.Pxf.Lexer.Cursor.{
  Lexer, Outcome, returns, advance, at_end, peek, peek_at, token, current_pos, skip_spaces,
}
use protowire_rust.Pxf.Lexer.Next.{next_token, dispatch}
use protowire_rust.Pxf.Lexer.Place.{loop_halts}
use protowire_rust.Pxf.Lexer.Quoted.{lex_string}
use protowire_rust.Pxf.Format.{quote_bytes, quote_string}
use protowire_rust.Pxf.Format.Quoting.{
  At, drop_head, Moved, advance-Moved, Moved-trans, plain, escaped, quote_byte-Quoted, closed,
  string_loop-quote_bytes,
}

behind_quote :
    (s after : List ℕ) (lx : Lexer)
    → At lx (quote_string s ++ after)
    → At lx (b'"' ∷ (quote_bytes s ++ (b'"' ∷ after)))
unfolding quote_string
behind_quote s after lx at =
    at ∙ ap (λ t. b'"' ∷ t) (append_assoc (quote_bytes s) (b'"' ∷ []) after)

length-quote_string : (s : List ℕ) → length (quote_string s) ≡ length (quote_bytes s) + 2
unfolding quote_string
length-quote_string s = omega (arith, length-append (quote_bytes s) (b'"' ∷ []))

-- The token of a string, at a lexer behind its quote.
pub record StringToken (s after : List ℕ) (pos : Position) (lx : Lexer)
    (m : Outcome (Token × Lexer)) : Type 0 where
  pub q : Lexer
  pub moved : Moved lx q after (length (quote_string s))
  pub reads : m ≡ returns (Token.new TokenKind.string s pos, q)

closed_utf8 :
    (buf : List ℕ) (pos : Position) (q : Lexer)
    → is_utf8 buf ≡ true
    → closed buf pos q ≡ returns (Token.new TokenKind.string buf pos, q)
closed_utf8 buf pos q e = ground (arith, e)

lex_string-quote_string :
    (s after : List ℕ) (pos : Position) (lx : Lexer)
    → is_utf8 s ≡ true
    → At lx (quote_string s ++ after)
    → StringToken s after pos lx (lex_string pos lx)
unfolding lex_string
lex_string-quote_string s after pos lx utf8 at =
    let opened = behind_quote s after lx at in
    let step = advance-Moved lx b'"' (quote_bytes s ++ (b'"' ∷ after)) opened in
    let room : length (quote_bytes s) < suc (length lx.input) = omega (
      arith,
      length-drop lx.pos lx.input,
      ap length opened,
      length-append (quote_bytes s) (b'"' ∷ after),
    ) in
    let more =
      string_loop-quote_bytes s after (suc (length lx.input)) [] pos (advance lx) step.at room in
    record {
      q = more.q;
      moved = Moved-trans step more.moved (omega (arith, length-quote_string s));
      reads = more.reads ∙ closed_utf8 s pos more.q utf8;
    }

get_or-drop : (xs : List ℕ) (p k : ℕ) → get_or xs (p + k) 0 ≡ get_or (drop p xs) k 0
get_or-drop xs zero k = ap (λ t. get_or xs t 0) (omega arith)
get_or-drop [] (suc p) k = refl
get_or-drop (x ∷ xs) (suc p) k =
    let next : suc p + k ≡ suc (p + k) = omega arith in
    ap (λ t. get_or (x ∷ xs) t 0) next ∙ get_or-drop xs p k

-- Behind the quote that opens a string there are not two more.
pub peeks :
    (lx : Lexer) (c : ℕ) (rest : List ℕ)
    → At lx (c ∷ rest)
    → (peek lx ≡ c)
      × (at_end lx ≡ false)
      × (peek_at 1 lx ≡ get_or rest 0 0)
      × (peek_at 2 lx ≡ get_or rest 1 0)
peeks lx c rest at =
    let (here, inside, behind) = drop_head lx.input rest lx.pos c at in
    (
      here,
      ground (arith, inside),
      get_or-drop lx.input lx.pos 1 ∙ ap (λ t. get_or t 1 0) at,
      get_or-drop lx.input lx.pos 2 ∙ ap (λ t. get_or t 2 0) at,
    )

not_triple :
    (s after : List ℕ)
    → (get_or after 0 0 == b'"') ≡ false
    → (get_or (quote_bytes s ++ (b'"' ∷ after)) 0 0 == b'"'
        && get_or (quote_bytes s ++ (b'"' ∷ after)) 1 0 == b'"')
      ≡ false
unfolding quote_bytes
not_triple [] after h = ground (arith, h)
not_triple (c ∷ s) after h = elim (quote_byte-Quoted c) [
  | plain form quote line slash ↦ rw form (ground (arith, quote))
  | escaped e form pushed ↦ rw form refl
]

no_blank : (lx : Lexer) → peek lx ≡ b'"' → skip_spaces lx ≡ lx
unfolding skip_spaces
no_blank lx e = loop_halts (length lx.input) _ lx (ground (arith, e))

one_quote :
    (pos : Position) (lx : Lexer)
    → peek lx ≡ b'"'
    → (peek_at 1 lx == b'"' && peek_at 2 lx == b'"') ≡ false
    → dispatch pos lx ≡ lex_string pos lx
unfolding dispatch
one_quote pos lx e h = ground (arith, e, h)

pub next_token_here :
    (lx : Lexer)
    → skip_spaces lx ≡ lx
    → at_end lx ≡ false
    → next_token lx ≡ dispatch (current_pos lx) lx
unfolding next_token
next_token_here lx e h = go (skip_spaces lx) e
  where
    go :
        (start : Lexer)
        → start ≡ lx
        → (if at_end start
            then token TokenKind.eof [] (current_pos start) start
            else dispatch (current_pos start) start)
          ≡ dispatch (current_pos lx) lx
    go start e =
        subst
          (λ t.
            (if at_end t
              then token TokenKind.eof [] (current_pos t) t
              else dispatch (current_pos t) t)
            ≡ dispatch (current_pos lx) lx)
          (sym e) (ground (arith, h))

-- At a lexer with a quoted string behind it, the next token is the string token of the bytes that were
-- quoted, and the lexer then stands behind the closing quote. The bytes are UTF-8, and the quoted
-- string is not followed by a quote.
pub next_token-quote_string :
    (s after : List ℕ) (lx : Lexer)
    → is_utf8 s ≡ true
    → (get_or after 0 0 == b'"') ≡ false
    → At lx (quote_string s ++ after)
    → StringToken s after (current_pos lx) lx (next_token lx)
next_token-quote_string s after lx utf8 other at =
    let opened = behind_quote s after lx at in
    let (here, inside, one, two) = peeks lx b'"' (quote_bytes s ++ (b'"' ∷ after)) opened in
    let here_token = lex_string-quote_string s after (current_pos lx) lx utf8 at in
    record {
      q = here_token.q;
      moved = here_token.moved;
      reads =
          next_token_here lx (no_blank lx here) inside
          ∙ one_quote (current_pos lx) lx here (rw (one, two) (not_triple s after other))
          ∙ here_token.reads;
    }
