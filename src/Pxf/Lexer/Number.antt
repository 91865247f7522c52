-- ===== src/Pxf/Lexer/Number.antt =====
-- crates/protowire-pxf/src/lexer.rs, lines 522 to 733: numbers, timestamps, durations, identifiers.
use protowire_rust.Prelude.{
  ℕ, zero, suc, ◌+◌, ◌-◌, List, [], ◌++◌, Bool, true, false, not, ◌&&◌, ◌||◌, ◌==◌, if◌then◌else◌,
  length, codes,
}
use protowire_rust.Wire.Utf8.{is_utf8}
use protowire_rust.Pxf.Token.{Position, Token, TokenKind}
use protowire_rust.Pxf.Chars.{is_digit, is_lower_alpha, is_duration_unit, is_ident_part}
use protowire_rust.Pxf.Literals.{is_valid_rfc3339, is_valid_go_duration}
use protowire_rust.Pxf.Lexer.Cursor.{
  Lexer, Outcome, returns, stuck, advance, advance_by, advance_loop, advance_while, at_end, peek,
  peek_at, since, slice_to_string, token, illegal, ◌>>=◌,
}
use protowire_rust.Pxf.Lexer.Quoted.{text_eq}
use protowire_rust.Pxf.Token

-- `while self.pos < self.input.len() && is_digit(self.peek()) { self.advance(); }`
abbrev pub digits : Lexer → Lexer
unfolding advance_loop is_digit
digits lx = advance_while (λ q. is_digit (peek q)) lx

unfoldable pub lex_precision : Lexer → Outcome (List ℕ × Lexer)
unfolding is_digit advance advance_loop slice_to_string
lex_precision lx =
    if not (peek lx == b'p') || not (is_digit (peek_at 1 lx))
    then returns ([], lx)
    else let inside = advance lx in
      let after = digits inside in
      do text ← slice_to_string (since inside.pos after); returns (text, after)

-- The number's token, with its precision.
unfoldable pub number_token : TokenKind → (start : ℕ) → Position → Lexer → Outcome (Token × Lexer)
unfolding slice_to_string lex_precision
number_token kind start pos lx = do
  value ← slice_to_string (since start lx)
  (prec, after) ← lex_precision lx
  returns (record (Token.new kind value pos) { prec = prec }, after)

unfoldable pub at_micro_sign : Lexer → Bool
at_micro_sign lx = peek lx == 0xc2 && peek_at 1 lx == 0xb5

unfoldable pub at_duration_unit : Lexer → Bool
unfolding is_duration_unit at_micro_sign
at_duration_unit lx = if at_end lx then false else is_duration_unit (peek lx) || at_micro_sign lx

unfoldable pub pass_fraction : Lexer → Lexer
unfolding advance advance_loop is_digit
pass_fraction lx = if peek lx == b'.' then digits (advance lx) else lx

unfoldable pub pass_sign : Lexer → Lexer
unfolding advance
pass_sign lx = if not (at_end lx) && (peek lx == b'+' || peek lx == b'-') then advance lx else lx

unfoldable pub pass_exponent : Lexer → Lexer
unfolding advance advance_loop is_digit pass_sign
pass_exponent lx =
    if not (at_end lx) && (peek lx == b'e' || peek lx == b'E')
    then digits (pass_sign (advance lx))
    else lx

unfoldable pub lex_float : (start : ℕ) → Position → Lexer → Outcome (Token × Lexer)
unfolding pass_fraction pass_exponent number_token
lex_float start pos lx = number_token TokenKind.float start pos (pass_exponent (pass_fraction lx))

unfoldable pub ends_timestamp : Lexer → Bool
ends_timestamp lx =
    let ch = peek lx in
    ch == b' '
    || ch == b'\n'
    || ch == b'\t'
    || ch == b'\r'
    || ch == b','
    || ch == b']'
    || ch == b'}'
    || ch == b'#'
    || ch == b'/' && (peek_at 1 lx == b'/' || peek_at 1 lx == b'*')

unfoldable pub lex_timestamp : (start : ℕ) → Position → Lexer → Outcome (Token × Lexer)
unfolding advance_loop ends_timestamp slice_to_string is_valid_rfc3339
lex_timestamp start pos lx =
    let after = advance_while (λ q. not (ends_timestamp q)) lx in
    do
      raw ← slice_to_string (since start after)
      (if is_valid_rfc3339 raw
          then token TokenKind.timestamp raw pos after
          else illegal (codes "invalid timestamp: " ++ raw) pos after)

-- The loop of lines 697 to 710. Every round takes a byte at least.
unfoldable pub duration_span : (fuel : ℕ) → Lexer → Outcome Lexer
unfolding advance advance_by is_digit is_lower_alpha at_micro_sign
duration_span zero lx = stuck
duration_span (suc fuel) lx = elim (at_end lx) [
  | true ↦ returns lx
  | false ↦
      elim (is_digit (peek lx)
        || is_lower_alpha (peek lx)
        || peek lx == b'.' && is_digit (peek_at 1 lx)) [
          | true ↦ duration_span fuel (advance lx)
          | false ↦ elim (at_micro_sign lx) [
            | true ↦ duration_span fuel (advance_by 2 lx)
            | false ↦ returns lx
          ]
        ]
]

unfoldable pub lex_duration : (start : ℕ) → Position → Lexer → Outcome (Token × Lexer)
unfolding duration_span slice_to_string is_valid_go_duration
lex_duration start pos lx = do
  after ← duration_span (suc (length lx.input)) lx
  raw ← slice_to_string (since start after)
  (if is_valid_go_duration raw
      then token TokenKind.duration raw pos after
      else illegal (codes "invalid duration: " ++ raw) pos after)

-- Lines 572 to 594, after the digits and the fraction.
unfoldable pub number_end : (frac : Bool) (start : ℕ) → Position → Lexer → Outcome (Token × Lexer)
unfolding at_duration_unit lex_duration lex_float number_token
number_end frac start pos lx =
    if at_duration_unit lx
    then lex_duration start pos lx
    else if frac || not (at_end lx) && (peek lx == b'.' || peek lx == b'e' || peek lx == b'E')
    then lex_float start pos lx
    else number_token TokenKind.int start pos lx

-- Lines 546 to 594, after the sign.
unfoldable pub magnitude : (neg : Bool) (start : ℕ) → Position → Lexer → Outcome (Token × Lexer)
unfolding advance advance_loop is_digit lex_timestamp number_end
magnitude neg start pos lx =
    let after = digits lx in
    if not neg && after.pos - lx.pos == 4 && not (at_end after) && peek after == b'-'
    then lex_timestamp start pos after
    else if peek after == b'.' && is_digit (peek_at 1 after)
    then number_end true start pos (digits (advance after))
    else number_end false start pos after

abbrev pub at_inf : Lexer → Bool
unfolding is_ident_part
at_inf lx =
    peek lx == b'i'
    && peek_at 1 lx == b'n'
    && peek_at 2 lx == b'f'
    && not (is_ident_part (peek_at 3 lx))

-- Lines 525 to 544: the byte at the cursor is the sign.
unfoldable pub signed : Position → Lexer → Outcome (Token × Lexer)
unfolding advance is_ident_part is_digit magnitude
signed pos lx =
    let after = advance lx in
    let past = record after { pos = after.pos + 3; col = after.col + 3 } in
    let text = since lx.pos past in
    if at_inf after
    then token TokenKind.float (if is_utf8 text then text else []) pos past
    else if peek lx == b'+'
    then illegal (codes "+") pos after
    else if at_end after || not (is_digit (peek after))
    then illegal (codes "-") pos after
    else magnitude true lx.pos pos after

unfoldable pub lex_number : Position → Lexer → Outcome (Token × Lexer)
unfolding signed magnitude
lex_number pos lx =
    if peek lx == b'-' || peek lx == b'+' then signed pos lx else magnitude false lx.pos pos lx

unfoldable pub ident_kind : List ℕ → TokenKind
unfolding text_eq
ident_kind value =
    if text_eq value (codes "true") || text_eq value (codes "false")
    then TokenKind.bool
    else if text_eq value (codes "null")
    then TokenKind.null
    else TokenKind.ident

unfoldable pub lex_ident : Position → Lexer → Outcome (Token × Lexer)
unfolding advance_loop is_ident_part slice_to_string ident_kind
lex_ident pos lx =
    let after = advance_while (λ q. is_ident_part (peek q)) lx in
    do value ← slice_to_string (since lx.pos after); token (ident_kind value) value pos after
