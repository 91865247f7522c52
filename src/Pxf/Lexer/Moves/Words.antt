-- ===== src/Pxf/Lexer/Moves/Words.antt =====
-- lexer.rs, lines 522 to 733: termination of numbers and identifiers, and how far they move the
-- lexer.
use protowire_rust.Prelude.{
  ℕ, zero, suc, ◌+◌, ◌-◌, ◌<◌, List, [], ◌∷◌, Bool, true, false, not, ◌&&◌, ◌||◌, ◌==◌, ◌≡◌, refl,
  ap, arith, length, get_or, if◌then◌else◌,
}
use protowire_rust.Pxf.Token.{Position, TokenKind}
use protowire_rust.Pxf.Chars.{is_digit, is_lower_alpha, is_ident_part, is_ident_start}
use protowire_rust.Pxf.Literals.{is_valid_rfc3339, is_valid_go_duration}
use protowire_rust.Pxf.Lexer.Cursor.{
  Lexer, advance, advance_loop, at_end, peek, peek_at, slice_to_string,
}
use protowire_rust.Pxf.Lexer.Number.{
  digits, lex_precision, number_token, at_micro_sign, at_duration_unit, pass_fraction, pass_sign,
  pass_exponent, lex_float, ends_timestamp, lex_timestamp, duration_span, lex_duration, number_end,
  magnitude, at_inf, signed, lex_number, ident_kind, lex_ident,
}
use protowire_rust.Pxf.Lexer.Next.{is_eof}
use protowire_rust.Pxf.Lexer.Moves.{
  Ends, returned, >>=-Ends, elim-Ends, if-Ends, slice_to_string-Ends, IsPast, advance-IsPast,
  advance_further, advance_loop-IsPast, advance_while_further, Gives, IsPast-here, round, no_room,
}

-- A byte that is not zero stands inside.
get_or_inside : (s : List ℕ) (i c : ℕ) → 0 < c → (get_or s i 0 == c) ≡ true → i < length s
get_or_inside [] i c h e = ground arith
get_or_inside (x ∷ s) zero c h e = ground arith
get_or_inside (x ∷ s) (suc i) c h e = ground (arith, get_or_inside s i c)

is_ident_start-part : (c : ℕ) → is_ident_start c ≡ true → is_ident_part c ≡ true
unfolding is_ident_part is_ident_start
is_ident_start-part c h = ground (arith, h)

ident_kind-is_eof : (value : List ℕ) → is_eof (ident_kind value) ≡ false
unfolding ident_kind is_eof
ident_kind-is_eof value = ground arith

digits_further :
    {s : List ℕ} {n : ℕ} {lx : Lexer}
    → at_end lx ≡ false
    → is_digit (peek lx) ≡ true
    → IsPast s n lx
    → IsPast s (suc n) (digits lx)
unfolding advance_loop is_digit
digits_further more holds h = advance_while_further (λ q. is_digit (peek q)) more holds h

module _ {s : List ℕ} {n : ℕ} where
  if-IsPast :
      (b : Bool) {x y : Lexer} → IsPast s n x → IsPast s n y → IsPast s n (if b then x else y)
  if-IsPast true h k = h
  if-IsPast false h k = k

  digits-IsPast : {lx : Lexer} → IsPast s n lx → IsPast s n (digits lx)
  unfolding advance_loop is_digit
  digits-IsPast {lx} h = advance_loop-IsPast (length lx.input) (λ q. is_digit (peek q)) h

  pass_fraction-IsPast : {lx : Lexer} → IsPast s n lx → IsPast s n (pass_fraction lx)
  unfolding pass_fraction
  pass_fraction-IsPast {lx} h = if-IsPast (peek lx == b'.') (digits-IsPast (advance-IsPast h)) h

  pass_sign-IsPast : {lx : Lexer} → IsPast s n lx → IsPast s n (pass_sign lx)
  unfolding pass_sign
  pass_sign-IsPast {lx} h =
      if-IsPast (not (at_end lx) && (peek lx == b'+' || peek lx == b'-')) (advance-IsPast h) h

  pass_exponent-IsPast : {lx : Lexer} → IsPast s n lx → IsPast s n (pass_exponent lx)
  unfolding pass_exponent
  pass_exponent-IsPast {lx} h =
      if-IsPast (not (at_end lx) && (peek lx == b'e' || peek lx == b'E'))
        (digits-IsPast (pass_sign-IsPast (advance-IsPast h))) h

  lex_precision-Ends : {lx : Lexer} → IsPast s n lx → Ends (λ r. IsPast s n r.1) (lex_precision lx)
  unfolding lex_precision
  lex_precision-Ends {lx} h =
      if-Ends (not (peek lx == b'p') || not (is_digit (peek_at 1 lx))) _ _ (λ _. returned h)
        λ _.
          >>=-Ends (slice_to_string _) _ (slice_to_string-Ends _)
            λ text _. returned (digits-IsPast (advance-IsPast h))

  number_token-Gives :
      (kind : TokenKind) (start : ℕ) (pos : Position) {lx : Lexer}
      → is_eof kind ≡ false
      → IsPast s n lx
      → Ends (Gives s n pos) (number_token kind start pos lx)
  unfolding number_token
  number_token-Gives kind start pos {lx} no_end h =
      >>=-Ends (slice_to_string _) _ (slice_to_string-Ends _) λ value _.
        >>=-Ends (lex_precision lx) _ (lex_precision-Ends h) λ r past. returned (no_end, refl, past)

  lex_timestamp-Gives :
      (start : ℕ) (pos : Position) {lx : Lexer}
      → IsPast s n lx
      → Ends (Gives s n pos) (lex_timestamp start pos lx)
  unfolding lex_timestamp is_eof
  lex_timestamp-Gives start pos {lx} h =
      let after = advance_loop-IsPast (length lx.input) (λ q. not (ends_timestamp q)) h in
      >>=-Ends (slice_to_string _) _ (slice_to_string-Ends _) λ raw _.
        if-Ends (is_valid_rfc3339 raw) _ _ (λ _. returned (refl, refl, after))
          (λ _. returned (refl, refl, after))

  duration_span-Ends :
      (fuel : ℕ) {lx : Lexer}
      → IsPast s n lx
      → length s < lx.pos + fuel
      → Ends (IsPast s n) (duration_span fuel lx)
  unfolding duration_span
  duration_span-Ends zero h room = absurd (no_room h room)
  duration_span-Ends (suc fuel) {lx} h room =
      elim-Ends (at_end lx) _ _ (λ _. returned h)
        λ more.
          let (next, left) = round fuel more h room in
          elim-Ends
            (is_digit (peek lx)
              || is_lower_alpha (peek lx)
              || peek lx == b'.' && is_digit (peek_at 1 lx))
            _ _ (λ _. duration_span-Ends fuel next left)
            (λ _.
              elim-Ends (at_micro_sign lx) _ _
                (λ _.
                  let behind = advance-IsPast (IsPast-here next) in
                  duration_span-Ends fuel (advance-IsPast next) (omega (arith, behind.from, left)))
                (λ _. returned h))

module _ {s : List ℕ} {n : ℕ} where
  lex_duration-Gives :
      (start : ℕ) (pos : Position) {lx : Lexer}
      → IsPast s n lx
      → Ends (Gives s n pos) (lex_duration start pos lx)
  unfolding lex_duration is_eof
  lex_duration-Gives start pos {lx} h =
      >>=-Ends (duration_span (suc (length lx.input)) lx) _
        (duration_span-Ends (suc (length lx.input)) h (omega (arith, ap length h.same)))
        λ after past. >>=-Ends (slice_to_string _) _ (slice_to_string-Ends _) λ raw _.
          if-Ends (is_valid_go_duration raw) _ _ (λ _. returned (refl, refl, past))
            (λ _. returned (refl, refl, past))

  number_end-Gives :
      (frac : Bool) (start : ℕ) (pos : Position) {lx : Lexer}
      → IsPast s n lx
      → Ends (Gives s n pos) (number_end frac start pos lx)
  unfolding number_end lex_float is_eof
  number_end-Gives frac start pos {lx} h =
      if-Ends (at_duration_unit lx) _ _ (λ _. lex_duration-Gives start pos h)
        λ _.
          if-Ends
            (frac || not (at_end lx) && (peek lx == b'.' || peek lx == b'e' || peek lx == b'E')) _ _
            (λ _.
              number_token-Gives TokenKind.float start pos refl
                (pass_exponent-IsPast (pass_fraction-IsPast h)))
            (λ _. number_token-Gives TokenKind.int start pos refl h)

  magnitude-Gives :
      (neg : Bool) (start : ℕ) (pos : Position) (lx : Lexer)
      → IsPast s n (digits lx)
      → Ends (Gives s n pos) (magnitude neg start pos lx)
  unfolding magnitude
  magnitude-Gives neg start pos lx h =
      if-Ends
        (not neg
          && (digits lx).pos - lx.pos == 4
          && not (at_end (digits lx))
          && peek (digits lx) == b'-')
        _ _ (λ _. lex_timestamp-Gives start pos h)
        λ _.
          if-Ends (peek (digits lx) == b'.' && is_digit (peek_at 1 (digits lx))) _ _
            (λ _. number_end-Gives true start pos (digits-IsPast (advance-IsPast h)))
            (λ _. number_end-Gives false start pos h)

module _ {s : List ℕ} {n : ℕ} where
  signed-Gives :
      (pos : Position) {lx : Lexer}
      → at_end lx ≡ false
      → IsPast s n lx
      → Ends (Gives s (suc n) pos) (signed pos lx)
  unfolding signed is_eof
  signed-Gives pos {lx} more h =
      let past = advance_further more h in
      if-Ends (at_inf (advance lx)) _ _
        (λ inf.
          let third =
            get_or_inside (advance lx).input ((advance lx).pos + 2) b'f' (omega arith)
              (ground (arith, inf)) in
          returned (
            refl,
            refl,
            record {
              same = past.same;
              from = omega (arith, past.from);
              inside = omega (arith, third);
            },
          ))
        λ _.
          if-Ends (peek lx == b'+') _ _ (λ _. returned (refl, refl, past))
            λ _.
              if-Ends (at_end (advance lx) || not (is_digit (peek (advance lx)))) _ _
                (λ _. returned (refl, refl, past))
                λ _. magnitude-Gives true lx.pos pos (advance lx) (digits-IsPast past)

  pub lex_number-Gives :
      (pos : Position) {lx : Lexer}
      → at_end lx ≡ false
      → (peek lx == b'-' || peek lx == b'+' || is_digit (peek lx)) ≡ true
      → IsPast s n lx
      → Ends (Gives s (suc n) pos) (lex_number pos lx)
  unfolding lex_number
  lex_number-Gives pos {lx} more starts h =
      if-Ends (peek lx == b'-' || peek lx == b'+') _ _ (λ _. signed-Gives pos more h)
        λ plain.
          magnitude-Gives false lx.pos pos lx
            (digits_further more (ground (arith, plain, starts)) h)

  pub lex_ident-Gives :
      (pos : Position) {lx : Lexer}
      → at_end lx ≡ false
      → is_ident_start (peek lx) ≡ true
      → IsPast s n lx
      → Ends (Gives s (suc n) pos) (lex_ident pos lx)
  unfolding lex_ident
  lex_ident-Gives pos {lx} more starts h =
      let after =
        advance_while_further (λ q. is_ident_part (peek q)) more
          (is_ident_start-part (peek lx) starts) h in
      >>=-Ends (slice_to_string _) _ (slice_to_string-Ends _)
        λ value _. returned (ident_kind-is_eof value, refl, after)
