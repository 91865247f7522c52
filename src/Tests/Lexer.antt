-- ===== src/Tests/Lexer.antt =====
-- The lexer on small inputs.
use protowire_rust.Prelude.{List, [], ◌∷◌, ◌++◌, codes, ◌≡◌, refl, map, arith, true}
use protowire_rust.Pxf.Lexer.Cursor.{Lexer, Outcome, returns, panics, stuck, new, reposition_to}
use protowire_rust.Wire.Utf8.{is_utf8, utf8_loop}
use protowire_rust.Pxf.Lexer.Next.{collect_tokens, next_token}
use protowire_rust.Pxf.Lexer.Place.{IsPlaced, newlines, after_newline, reposition_to-IsPlaced}
use protowire_rust.Pxf.Lexer.Middle.{next_token_panics, collect_tokens_panics, escaped_char}
use protowire_rust.Pxf.Lexer.Cursor.{with_limits}
use protowire_rust.Pxf.Lexer.Moves.{Ends}
use protowire_rust.Pxf.Lexer.Moves.Next.{IsStep, next_token_moves, is_stream, collect_tokens-Ends}
use protowire_rust.Pxf.Token.{Token, TokenKind}

abbrev kinds : Outcome (List Token) → Outcome (List TokenKind)
kinds (returns ts) = returns (map (λ t. t.kind) ts)
kinds panics = panics
kinds stuck = stuck

tokens-of_a_field :
    kinds (collect_tokens (new (codes "a = -1.5e3 # c")))
    ≡ returns (
        TokenKind.ident ∷ TokenKind.equals ∷ TokenKind.float ∷ TokenKind.comment ∷ TokenKind.eof
        ∷ [])
unfolding collect_tokens new utf8_loop
tokens-of_a_field = refl

tokens-of_escapes :
    kinds (
      collect_tokens
        (new (b'"' ∷ b'\\' ∷ b'x' ∷ b'4' ∷ b'1' ∷ b'"' ∷ codes " 2024-02-29T00:00:00Z 1h2.5m {")))
    ≡ returns (
        TokenKind.string ∷ TokenKind.timestamp ∷ TokenKind.duration ∷ TokenKind.l_brace
        ∷ TokenKind.eof ∷ [])
unfolding collect_tokens new utf8_loop
tokens-of_escapes = refl

-- An unknown escape that is a character of two bytes.
tokens-of_unknown_escape : collect_tokens (new (b'"' ∷ b'\\' ∷ 0xc3 ∷ 0xa9 ∷ [])) ≡ panics
unfolding collect_tokens new utf8_loop
tokens-of_unknown_escape = refl

abbrev two_lines : Lexer
two_lines = new (codes "ab" ++ (b'\n' ∷ codes "cd"))

two_lines-IsPlaced : IsPlaced two_lines
unfolding newlines after_newline new
two_lines-IsPlaced = record { within = omega arith; line = refl; column = refl }

reposition_to-IsPlaced_example :
    IsPlaced (reposition_to 4 two_lines) × ((reposition_to 4 two_lines).pos ≡ 4)
unfolding new
reposition_to-IsPlaced_example = reposition_to-IsPlaced two_lines 4 two_lines-IsPlaced (omega arith)

next_token_panics_example :
    next_token (record (new (0xc3 ∷ 0xa9 ∷ b' ' ∷ [])) { pos = 1; col = 2 }) ≡ panics
unfolding new
next_token_panics_example =
    next_token_panics (record (new (0xc3 ∷ 0xa9 ∷ b' ' ∷ [])) { pos = 1; col = 2 }) (omega arith)
      (omega arith) (omega arith)

collect_tokens_panics_example :
    (is_utf8 (escaped_char 0xc3 0xa9) ≡ true)
    × (collect_tokens (new (escaped_char 0xc3 0xa9)) ≡ panics)
collect_tokens_panics_example =
    collect_tokens_panics 0xc3 0xa9 (omega arith) (omega arith) (omega arith) (omega arith)

next_token_moves_example : Ends (IsStep two_lines) (next_token two_lines)
unfolding new
next_token_moves_example = next_token_moves two_lines (omega arith)

collect_tokens-Ends_example :
    Ends
      (λ ts. is_stream ts ≡ true)
      (collect_tokens (with_limits (codes "a = " ++ (b'"' ∷ codes "b c")) 64))
collect_tokens-Ends_example = collect_tokens-Ends (codes "a = " ++ (b'"' ∷ codes "b c")) 64
