-- ===== src/Pxf/Lexer/Moves/Escapes.antt =====
-- lexer.rs, lines 338 to 436: how far an escape moves the lexer.
use protowire_rust.Prelude.{
  ℕ, zero, suc, ◌*◌, ◌%◌, ◌^◌, bit_or, List, Bool, true, false, ◌||◌, Option, none, some, ◌==◌,
  arith, if◌then◌else◌,
}
use protowire_rust.Pxf.Chars.{hex_val, valid_rune}
use protowire_rust.Pxf.Lexer.Cursor.{Lexer, advance, peek}
use protowire_rust.Pxf.Lexer.Quoted.{
  read_hex_byte, hex_rune_loop, read_hex_rune, read_oct_rest, Escaped, pushed, rune_of, escape,
}
use protowire_rust.Pxf.Lexer.Moves.{IsPast, advance-IsPast, advance_by-IsPast}

module _ {s : List ℕ} {n : ℕ} where
  hex_digit-IsPast :
      (v : Option ℕ) (x : Option ℕ × Lexer) (f : ℕ → Option ℕ × Lexer)
      → IsPast s n x.1
      → ((d : ℕ) → IsPast s n (f d).1)
      → IsPast s n (elim v as (λ _. Option ℕ × Lexer) [ none ↦ x | some d ↦ f d ]).1
  hex_digit-IsPast none x f h k = h
  hex_digit-IsPast (some d) x f h k = k d

  hex_rune_loop-IsPast :
      (k r : ℕ) {lx : Lexer} → IsPast s n lx → IsPast s n (hex_rune_loop k r lx).1
  unfolding hex_rune_loop
  hex_rune_loop-IsPast zero r h = h
  hex_rune_loop-IsPast (suc k) r {lx} h =
      hex_digit-IsPast (hex_val (peek lx)) _
        (λ d. hex_rune_loop k (bit_or (r * 2 ^ 4 % 2 ^ 32) d) (advance lx)) h
        (λ d. hex_rune_loop-IsPast k (bit_or (r * 2 ^ 4 % 2 ^ 32) d) (advance-IsPast h))

  read_hex_byte-IsPast : {lx : Lexer} → IsPast s n lx → IsPast s n (read_hex_byte lx).1
  unfolding read_hex_byte
  read_hex_byte-IsPast {lx} h =
      let two = advance_by-IsPast 2 h in
      record {
        same = ground (arith, h.same, two.same);
        from = ground (arith, h.from, two.from);
        inside = ground (arith, h.inside, two.inside);
      }

  read_oct_rest-IsPast :
      (first : ℕ) {lx : Lexer} → IsPast s n lx → IsPast s n (read_oct_rest first lx).1
  unfolding read_oct_rest
  read_oct_rest-IsPast first {lx} h =
      let two = advance_by-IsPast 2 h in
      record {
        same = ground (arith, h.same, two.same);
        from = ground (arith, h.from, two.from);
        inside = ground (arith, h.inside, two.inside);
      }

  read_hex_rune-IsPast : (k : ℕ) {lx : Lexer} → IsPast s n lx → IsPast s n (read_hex_rune k lx).1
  unfolding read_hex_rune
  read_hex_rune-IsPast k {lx} h =
      let all = hex_rune_loop-IsPast k 0 h in
      record {
        same = ground (arith, h.same, all.same);
        from = ground (arith, h.from, all.from);
        inside = ground (arith, h.inside, all.inside);
      }

  pushed-IsPast :
      (r : Option ℕ × Lexer) (f : ℕ → List ℕ) (m : List ℕ)
      → IsPast s n r.1
      → IsPast s n (pushed r f m).1
  pushed-IsPast (none, lx) f m h = h
  pushed-IsPast (some b, lx) f m h = h

  rune_of-IsPast : (r : Option ℕ × Lexer) → IsPast s n r.1 → IsPast s n (rune_of r).1
  unfolding valid_rune
  rune_of-IsPast (none, lx) h = h
  rune_of-IsPast (some b, lx) h = h

  if-IsPast :
      (b : Bool) (x y : Escaped × Lexer)
      → IsPast s n x.1
      → IsPast s n y.1
      → IsPast s n (if b then x else y).1
  if-IsPast true x y h k = h
  if-IsPast false x y h k = k

  pub escape-IsPast : (esc : ℕ) {lx : Lexer} → IsPast s n lx → IsPast s n (escape esc lx).1
  unfolding escape
  escape-IsPast esc {lx} h =
      if-IsPast (esc == b'"' || esc == b'\\' || esc == b'\'' || esc == b'?') _ _ h (
        if-IsPast (esc == b'a') _ _ h (
          if-IsPast (esc == b'b') _ _ h (
            if-IsPast (esc == b'f') _ _ h (
              if-IsPast (esc == b'n') _ _ h (
                if-IsPast (esc == b'r') _ _ h (
                  if-IsPast (esc == b't') _ _ h (
                    if-IsPast (esc == b'v') _ _ h (
                      if-IsPast (esc == b'x') _ _
                        (pushed-IsPast (read_hex_byte lx) _ _ (read_hex_byte-IsPast h))
                        (if-IsPast (esc == b'0' || esc == b'1' || esc == b'2' || esc == b'3') _ _
                          (pushed-IsPast (read_oct_rest esc lx) _ _ (read_oct_rest-IsPast esc h))
                          (if-IsPast (esc == b'u') _ _
                            (pushed-IsPast (rune_of (read_hex_rune 4 lx)) _ _
                              (rune_of-IsPast (read_hex_rune 4 lx) (read_hex_rune-IsPast 4 h)))
                            (if-IsPast (esc == b'U') _ _
                              (pushed-IsPast (rune_of (read_hex_rune 8 lx)) _ _
                                (rune_of-IsPast (read_hex_rune 8 lx) (read_hex_rune-IsPast 8 h)))
                              h)))))))))))
