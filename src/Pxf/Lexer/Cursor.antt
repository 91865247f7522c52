-- ===== src/Pxf/Lexer/Cursor.antt =====
-- crates/protowire-pxf/src/lexer.rs, lines 24 to 90 and 191 to 272: the state and its moves.
use protowire_rust.Prelude.{
  ℕ, zero, suc, ◌+◌, ◌-◌, ◌/◌, ◌%◌, List, [], ◌∷◌, ◌++◌, Bool, true, false, not, ◌&&◌, ◌||◌, ltb,
  leb, ◌==◌, if◌then◌else◌, length, get_or, take, drop,
}
use protowire_rust.Wire.Utf8.{is_utf8}
use protowire_rust.Wire.Types.{max_message_size_default}
use protowire_rust.Pxf.Token.{Position, with_offset, Token, TokenKind}
use protowire_rust.Pxf.Token

pub record Lexer : Type 0 where
  pub input : List ℕ
  pub pos : ℕ
  pub line : ℕ
  pub col : ℕ
  pub max_bytes_literal : ℕ

pub record LexerState : Type 0 where
  pub pos : ℕ
  pub line : ℕ
  pub col : ℕ

unfoldable pub with_limits : List ℕ → ℕ → Lexer
with_limits input max_bytes_literal = record {
  input = input;
  pos = 0;
  line = 1;
  col = 1;
  max_bytes_literal = max_bytes_literal;
}

-- The default bound is MAX_MESSAGE_SIZE of limits.rs, 64 << 20 as in wire.rs.
unfoldable pub new : List ℕ → Lexer
unfolding with_limits
new input = with_limits input max_message_size_default

abbrev pub at_end : Lexer → Bool
at_end lx = leb (length lx.input) lx.pos

abbrev pub peek_at : ℕ → Lexer → ℕ
peek_at offset lx = get_or lx.input (lx.pos + offset) 0

abbrev pub peek : Lexer → ℕ
peek lx = get_or lx.input lx.pos 0

-- One byte further, with its effect on line and column.
unfoldable pub pass : ℕ → Lexer → Lexer
pass ch lx =
    if ch == b'\n'
    then record lx { pos = lx.pos + 1; line = lx.line + 1; col = 1 }
    else record lx { pos = lx.pos + 1; col = lx.col + 1 }

-- The byte that `advance` returns is `peek` before it.
unfoldable pub advance : Lexer → Lexer
unfolding pass
advance lx = if at_end lx then lx else pass (peek lx) lx

unfoldable pub advance_by : ℕ → Lexer → Lexer
unfolding advance
advance_by zero lx = lx
advance_by (suc n) lx = advance_by n (advance lx)

-- `while self.pos < self.input.len() && <test> { self.advance(); }`. Every round takes a byte, so
-- `length` rounds are enough.
unfoldable pub advance_loop : (fuel : ℕ) → (Lexer → Bool) → Lexer → Lexer
unfolding advance
advance_loop zero test lx = lx
advance_loop (suc fuel) test lx = elim (not (at_end lx) && test lx) [
  | true ↦ advance_loop fuel test (advance lx)
  | false ↦ lx
]

abbrev pub advance_while : (Lexer → Bool) → Lexer → Lexer
advance_while test lx = advance_loop (length lx.input) test lx

-- The test of `reposition_to` is on the target; its move is that of `advance`.
unfoldable pub reposition_to : ℕ → Lexer → Lexer
unfolding advance_loop
reposition_to target lx =
    let start = if ltb target lx.pos then record lx { pos = 0; line = 1; col = 1 } else lx in
    advance_while (λ q. ltb q.pos target) start

unfoldable pub current_pos : Lexer → Position
unfolding with_offset
current_pos lx = with_offset lx.line lx.col lx.pos

unfoldable pub snapshot : Lexer → LexerState
snapshot lx = record { pos = lx.pos; line = lx.line; col = lx.col }

unfoldable pub restore : LexerState → Lexer → Lexer
restore s lx = record lx { pos = s.pos; line = s.line; col = s.col }

unfoldable pub skip_spaces : Lexer → Lexer
unfolding advance_loop
skip_spaces lx = advance_while (λ q. peek q == b' ' || peek q == b'\t' || peek q == b'\r') lx

-- The result of a method that can panic. `stuck` is no outcome of the source: a loop of the model
-- ran out of fuel.
pub data Outcome (A : Type 0) : Type 0 where
  returns : A → Outcome A
  panics : Outcome A
  stuck : Outcome A

infixl 5 ◌>>=◌
abbrev pub ◌>>=◌ : {A B : Type 0} → Outcome A → (A → Outcome B) → Outcome B
returns a >>= f = f a
panics >>= f = panics
stuck >>= f = stuck

-- `slice_to_string(&self.input[start..self.pos])`
abbrev pub since : ℕ → Lexer → List ℕ
since start lx = take (lx.pos - start) (drop start lx.input)

unfoldable pub slice_to_string : List ℕ → Outcome (List ℕ)
slice_to_string s = if is_utf8 s then returns s else panics

-- The token of a kind over the bytes since `start`, and an illegal one with a message.
abbrev pub token_since : TokenKind → ℕ → Position → Lexer → Outcome (Token × Lexer)
token_since kind start pos lx = do
  value ← slice_to_string (since start lx)
  returns (Token.new kind value pos, lx)

abbrev pub token : TokenKind → List ℕ → Position → Lexer → Outcome (Token × Lexer)
token kind value pos lx = returns (Token.new kind value pos, lx)

abbrev pub illegal : List ℕ → Position → Lexer → Outcome (Token × Lexer)
illegal message = token TokenKind.illegal message

-- Decimal digits, as `{}` prints a number below 10 ^ fuel.
unfoldable pub decimal : (fuel : ℕ) → ℕ → List ℕ
decimal zero n = []
decimal (suc fuel) n =
    let rest = decimal fuel (n / 10) in
    if ltb n 10 then (b'0' + n) ∷ [] else rest ++ ((b'0' + n % 10) ∷ [])
