-- ===== src/Pxf/Format/Literal.antt =====
-- crates/protowire-pxf/src: the base64 of format.rs against the loop of `lex_bytes` of lexer.rs.
use protowire_rust.Prelude.{
  ℕ, zero, suc, ◌+◌, ◌-◌, ◌*◌, ◌/◌, ◌≤◌, ◌<◌, List, [], ◌∷◌, ◌++◌, true, false, ◌==◌, ◌≡◌, refl,
  sym, ◌∙◌, arith, length, replicate, All, codes, if◌then◌else◌,
}
use mathlib.Core.Path.{subst}
use protowire_rust.Wire.Utf8.{utf8_loop, is_utf8}
use protowire_rust.Pxf.Token.{Position, Token, TokenKind}
use protowire_rust.Pxf.Token
use protowire_rust.Pxf.Literals.{is_valid_base64}
use protowire_rust.Pxf.Lexer.Cursor.{
  Lexer, pass, token, illegal, ◌>>=◌, returns, advance, since, slice_to_string,
}
use protowire_rust.Pxf.Lexer.Place.{advance_input}
use protowire_rust.Pxf.Lexer.Quoted.{bytes_loop}
use protowire_rust.Pxf.Format.{encode_base64}
use protowire_rust.Pxf.Format.Valid.{Is64, base64_byte, encode_base64-Coded}
use protowire_rust.Pxf.Format.Quoting.{At, drop_head, Moved, advance-Moved, Moved-trans}

-- An ASCII byte that does not end a bytes literal.
pub record IsInner (b : ℕ) : Type 0 where
  pub ascii : b < 128
  pub quote : (b == b'"') ≡ false
  pub line : (b == b'\n') ≡ false

Is64-IsInner : (b : ℕ) → Is64 b → IsInner b
unfolding base64_byte
Is64-IsInner b h = record {
  ascii = ground (arith, h);
  quote = ground (arith, h);
  line = ground (arith, h);
}

All-IsInner : (body : List ℕ) (k : ℕ) → All Is64 body → All IsInner (body ++ replicate k b'=')
All-IsInner [] zero h = tt
All-IsInner [] (suc k) h =
    (record { ascii = omega arith; quote = refl; line = refl }, All-IsInner [] k h)
All-IsInner (b ∷ body) k h = (Is64-IsInner b h.0, All-IsInner body k h.1)

pub encode_base64-IsInner : (s : List ℕ) → All IsInner (encode_base64 s)
encode_base64-IsInner s =
    let c = encode_base64-Coded s in
    subst (All IsInner) (sym c.form) (All-IsInner c.body c.pad c.digits)

pub ascii-is_utf8 : (t : List ℕ) → All IsInner t → is_utf8 t ≡ true
unfolding utf8_loop
ascii-is_utf8 [] h = refl
ascii-is_utf8 (b ∷ t) h = let low = h.0.ascii in ground (arith, low, ascii-is_utf8 t h.1)

pub advance_limit : (lx : Lexer) → (advance lx).max_bytes_literal ≡ lx.max_bytes_literal
unfolding advance pass
advance_limit lx = ground arith

inner_round :
    (fuel start : ℕ) (pos : Position) (lx : Lexer) (c : ℕ) (rest : List ℕ)
    → At lx (c ∷ rest)
    → IsInner c
    → (lx.pos - start) / 4 * 3 ≤ lx.max_bytes_literal
    → bytes_loop (suc fuel) start pos lx ≡ bytes_loop fuel start pos (advance lx)
unfolding bytes_loop
inner_round fuel start pos lx c rest at inner room =
    let (here, inside, behind) = drop_head lx.input rest lx.pos c at in
    ground (arith, here, inside, inner.quote, inner.line, room)

taken :
    (x t : List ℕ) (pos : Position) (q : Lexer)
    → x ≡ t
    → is_utf8 t ≡ true
    → is_valid_base64 t ≡ true
    → (slice_to_string x >>= λ raw.
        (if is_valid_base64 raw
          then token TokenKind.bytes raw pos q
          else illegal (codes "invalid base64 in bytes literal") pos q))
      ≡ returns (Token.new TokenKind.bytes t pos, q)
unfolding slice_to_string
taken x t pos q e utf8 valid = rw e (ground (arith, utf8, valid))

pub closing_round :
    (fuel start : ℕ) (pos : Position) (lx : Lexer) (t rest : List ℕ)
    → At lx (b'"' ∷ rest)
    → (lx.pos - start) / 4 * 3 ≤ lx.max_bytes_literal
    → since start lx ≡ t
    → is_utf8 t ≡ true
    → is_valid_base64 t ≡ true
    → bytes_loop (suc fuel) start pos lx ≡ returns (Token.new TokenKind.bytes t pos, advance lx)
unfolding bytes_loop
closing_round fuel start pos lx t rest at room text utf8 valid =
    let (here, inside, behind) = drop_head lx.input rest lx.pos b'"' at in
    ground (arith, here, inside, room, taken (since start lx) t pos (advance lx) text utf8 valid)

-- The loop at the closing quote, behind the text.
pub record Runs (t after : List ℕ) (fuel start : ℕ) (pos : Position) (lx : Lexer) : Type 0 where
  pub q : Lexer
  pub rounds : ℕ
  pub moved : Moved lx q (b'"' ∷ after) (length t)
  pub same : q.input ≡ lx.input
  pub limit : q.max_bytes_literal ≡ lx.max_bytes_literal
  pub runs : bytes_loop fuel start pos lx ≡ bytes_loop (suc rounds) start pos q

pub bytes_loop-Runs :
    (t after : List ℕ) (fuel start : ℕ) (pos : Position) (lx : Lexer)
    → At lx (t ++ (b'"' ∷ after))
    → All IsInner t
    → length t < fuel
    → start ≤ lx.pos
    → (lx.pos - start + length t) / 4 * 3 ≤ lx.max_bytes_literal
    → Runs t after fuel start pos lx
bytes_loop-Runs t after zero start pos lx at inner fuel_left behind room =
    absurd (omega (arith, fuel_left))
bytes_loop-Runs [] after (suc fuel) start pos lx at inner fuel_left behind room = record {
  q = lx;
  rounds = fuel;
  moved = record { at = at; pos = omega arith };
  same = refl;
  limit = refl;
  runs = refl;
}
bytes_loop-Runs (c ∷ t) after (suc fuel) start pos lx at inner fuel_left behind room =
    let step = advance-Moved lx c (t ++ (b'"' ∷ after)) at in
    let kept = advance_limit lx in
    let more =
      bytes_loop-Runs t after fuel start pos (advance lx) step.at inner.1 (omega (arith, fuel_left))
        (omega (arith, step.pos, behind)) (omega (arith, step.pos, behind, room, kept)) in
    record {
      q = more.q;
      rounds = more.rounds;
      moved = Moved-trans step more.moved (omega arith);
      same = more.same ∙ advance_input lx;
      limit = more.limit ∙ kept;
      runs =
          inner_round fuel start pos lx c (t ++ (b'"' ∷ after)) at inner.0 (omega (arith, room))
          ∙ more.runs;
    }
