-- ===== src/Pxf/Parser/State.antt =====
-- crates/protowire-pxf/src/parser.rs, lines 83 to 148: the parser's state and its moves. A method
-- that fails ends the parse, so only its success has a state.
use protowire_rust.Prelude.{
  ℕ, zero, suc, ◌+◌, ◌-◌, List, [], ◌∷◌, ◌++◌, Bool, true, false, leb, ◌==◌, if◌then◌else◌, length,
}
use protowire_rust.Pxf.Token.{Position, Token, TokenKind, with_offset}
use protowire_rust.Pxf.Token
use protowire_rust.Pxf.Ast.{Comment}
use protowire_rust.Pxf.Limits.{Limits}
use protowire_rust.Pxf.Lexer.Cursor.{Lexer, Outcome, with_limits}
use protowire_rust.Pxf.Lexer.Cursor
use protowire_rust.Pxf.Lexer.Next.{next_token}

-- The kinds in the order in which token.rs declares them.
unfoldable pub kind_index : TokenKind → ℕ
kind_index TokenKind.eof = 0
kind_index TokenKind.illegal = 1
kind_index TokenKind.newline = 2
kind_index TokenKind.comment = 3
kind_index TokenKind.ident = 4
kind_index TokenKind.string = 5
kind_index TokenKind.int = 6
kind_index TokenKind.float = 7
kind_index TokenKind.bool = 8
kind_index TokenKind.null = 9
kind_index TokenKind.bytes = 10
kind_index TokenKind.timestamp = 11
kind_index TokenKind.duration = 12
kind_index TokenKind.l_brace = 13
kind_index TokenKind.r_brace = 14
kind_index TokenKind.l_bracket = 15
kind_index TokenKind.r_bracket = 16
kind_index TokenKind.l_paren = 17
kind_index TokenKind.r_paren = 18
kind_index TokenKind.equals = 19
kind_index TokenKind.colon = 20
kind_index TokenKind.comma = 21
kind_index TokenKind.at_type = 22
kind_index TokenKind.at_directive = 23
kind_index TokenKind.at_dataset = 24
kind_index TokenKind.at_proto = 25

-- `matches!(a, b)`
unfoldable pub same : TokenKind → TokenKind → Bool
unfolding kind_index
same a b = kind_index a == kind_index b

-- The messages of parser.rs, with what each prints.
pub data Reason : Type 0 where
  message_too_large : ℕ → ℕ → Reason
  nesting_too_deep : ℕ → Reason
  dataset_with_type : Reason
  dataset_with_entries : Reason
  expected_type_name : TokenKind → Reason
  reserved_directive : List ℕ → Reason
  unmatched_brace : List ℕ → Reason
  expected_columns : TokenKind → Reason
  expected_first_column : TokenKind → Reason
  expected_column : TokenKind → Reason
  expected_column_end : TokenKind → Reason
  empty_segment : List ℕ → Reason
  column_overlap : List ℕ → List ℕ → Reason
  column_twice : List ℕ → Reason
  expected_cell_end : TokenKind → Reason
  cell_count : ℕ → ℕ → Reason
  expected_proto_brace : List ℕ → TokenKind → Reason
  invalid_base64 : Reason
  expected_proto_body : TokenKind → Reason
  expected_key : TokenKind → List ℕ → Reason
  key_with_precision : List ℕ → Reason
  assignment_key : TokenKind → List ℕ → Reason
  map_entry_at_top : Reason
  block_key : TokenKind → List ℕ → Reason
  expected_tail : List ℕ → TokenKind → Reason
  expected_value : TokenKind → List ℕ → Reason
  expected_list_end : TokenKind → Reason
  expected_body_end : TokenKind → Reason
  type_entry_misplaced : Reason
  expected_type_equals : TokenKind → Reason
  expected_type_url : TokenKind → Reason

-- `stuck` is no outcome of the source: a loop or a recursion of the model ran out of fuel.
pub data Result {ℓ} (A : Type ℓ) : Type ℓ where
  ok : A → Result A
  err : Position → Reason → Result A
  panics : Result A
  stuck : Result A

infixl 5 ◌>>=◌ ◌>>◌
abbrev pub ◌>>=◌ {ℓ κ} : {A : Type ℓ} {B : Type κ} → Result A → (A → Result B) → Result B
ok a >>= f = f a
err pos reason >>= f = err pos reason
panics >>= f = panics
stuck >>= f = stuck

abbrev pub ◌>>◌ {ℓ} : {B : Type ℓ} → Result (Unit {0}) → Result B → Result B
m >> k = m >>= λ _. k

unfoldable pub guard : Bool → Position → Reason → Result (Unit {0})
guard true pos reason = ok tt
guard false pos reason = err pos reason

abbrev pub lift : {A : Type 0} → Outcome A → Result A
lift (Cursor.returns a) = ok a
lift Cursor.panics = panics
lift Cursor.stuck = stuck

pub record Parser : Type 0 where
  pub lex : Lexer
  pub current : Token
  pub pending : List Comment
  pub depth : ℕ
  pub limits : Limits

abbrev pub kind : Parser → TokenKind
kind p = p.current.kind

abbrev pub at : TokenKind → Parser → Bool
at k p = same (kind p) k

unfoldable pub enter : Position → Parser → Result Parser
enter pos p =
    if leb p.limits.max_nesting_depth p.depth
    then err pos (nesting_too_deep p.limits.max_nesting_depth)
    else ok (record p { depth = p.depth + 1 })

-- It stands behind an `enter` in every method, so the depth is not 0.
unfoldable pub leave : Parser → Parser
leave p = record p { depth = p.depth - 1 }

-- Every token but the last takes a byte, so one round more than there are bytes is enough.
unfoldable pub advance_loop : (fuel : ℕ) → Parser → Result Parser
unfolding same
advance_loop zero p = stuck
advance_loop (suc fuel) p = do
  (t, lex) ← lift (next_token p.lex)
  let next = record p { lex = lex; current = t }
  elim (same t.kind TokenKind.newline) [
    | true ↦ advance_loop fuel next
    | false ↦ elim (same t.kind TokenKind.comment) [
      | true ↦ advance_loop fuel (record next {
        pending = p.pending ++ ((record { pos = t.pos; text = t.value }) ∷ []);
        current = record t { value = [] };
      })
      | false ↦ ok next
    ]
  ]

unfoldable pub advance : Parser → Result Parser
unfolding advance_loop
advance p = advance_loop (suc (length p.lex.input)) p

abbrev pub flush_comments : Parser → Parser
flush_comments p = record p { pending = [] }

unfoldable pub unstarted : List ℕ → Limits → Parser
unfolding with_limits with_offset
unstarted input limits = record {
  lex = with_limits input limits.max_bytes_literal_length;
  current = Token.new TokenKind.eof [] (with_offset 1 1 0);
  pending = [];
  depth = 0;
  limits = limits;
}

unfoldable pub new : List ℕ → Limits → Result Parser
unfolding advance unstarted
new input limits = advance (unstarted input limits)

-- The kind of the next significant token: the parser itself is as before.
unfoldable pub peek_kind : Parser → Result TokenKind
unfolding advance
peek_kind p = do q ← advance p; ok (kind q)
