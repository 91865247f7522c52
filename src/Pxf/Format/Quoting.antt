-- ===== src/Pxf/Format/Quoting.antt =====
-- crates/protowire-pxf/src: `quote_string` of format.rs against the loop of `lex_string` of lexer.rs.
use protowire_rust.Prelude.{
  ℕ, zero, suc, ◌+◌, ◌<◌, List, [], ◌∷◌, ◌++◌, false, ◌==◌, ◌≡◌, refl, sym, ap, ◌∙◌, arith, length,
  get_or, drop, append_assoc, append-nil, codes, Bool-cases, inl, inr, if◌then◌else◌,
}
use mathlib.Core.Path.{ap₂}
use protowire_rust.Wire.Utf8.{is_utf8}
use protowire_rust.Pxf.Token.{Position, Token, TokenKind}
use protowire_rust.Pxf.Lexer.Cursor.{Lexer, Outcome, advance, peek, token, illegal}
use protowire_rust.Pxf.Lexer.Place.{advance_input, advance_pos}
use protowire_rust.Pxf.Lexer.Quoted.{escape, escape_step, pushes, string_loop}
use protowire_rust.Pxf.Format.{quote_byte, quote_bytes}

-- The bytes that are left of the input.
abbrev pub At : Lexer → List ℕ → Type 0
At lx rest = drop lx.pos lx.input ≡ rest

pub drop_head :
    (xs rest : List ℕ) (n c : ℕ)
    → drop n xs ≡ c ∷ rest
    → (get_or xs n 0 ≡ c) × (n < length xs) × (drop (suc n) xs ≡ rest)
drop_head [] rest zero c e = absurd (ground (arith, e))
drop_head [] rest (suc n) c e = absurd (ground (arith, e))
drop_head (x ∷ xs) rest zero c e = (cc, omega arith, cc)
drop_head (x ∷ xs) rest (suc n) c e =
    let (here, inside, behind) = drop_head xs rest n c e in (here, omega (arith, inside), behind)

-- The lexer some bytes further.
pub record Moved (lx q : Lexer) (rest : List ℕ) (n : ℕ) : Type 0 where
  pub at : At q rest
  pub pos : q.pos ≡ lx.pos + n

pub advance-Moved :
    (lx : Lexer) (c : ℕ) (rest : List ℕ) → At lx (c ∷ rest) → Moved lx (advance lx) rest 1
advance-Moved lx c rest e =
    let (here, inside, behind) = drop_head lx.input rest lx.pos c e in
    let further : (advance lx).pos ≡ suc lx.pos = omega (arith, advance_pos lx inside) in
    record { at = ap₂ drop further (advance_input lx) ∙ behind; pos = advance_pos lx inside }

pub Moved-trans :
    {lx q r : Lexer} {rest rest' : List ℕ} {m n k : ℕ}
    → Moved lx q rest m
    → Moved q r rest' n
    → k ≡ m + n
    → Moved lx r rest' k
Moved-trans f g e = record { at = g.at; pos = omega (arith, f.pos, g.pos, e) }

-- How a byte is quoted: as it is, or as an escape that pushes it.
pub data Quoted (c : ℕ) : Type 0 where
  plain :
      quote_byte c ≡ c ∷ []
      → (c == b'"') ≡ false
      → (c == b'\n') ≡ false
      → (c == b'\\') ≡ false
      → Quoted c
  escaped :
      (e : ℕ)
      → quote_byte c ≡ b'\\' ∷ e ∷ []
      → ((lx : Lexer) → escape e lx ≡ (pushes (c ∷ []), lx))
      → Quoted c

pub quote_byte-Quoted : (c : ℕ) → Quoted c
unfolding quote_byte escape
quote_byte-Quoted c = elim (Bool-cases (c == b'\\')) [
  | inl slash ↦ escaped b'\\' (ground (arith, slash)) (λ lx. ground (arith, slash))
  | inr slash ↦ elim (Bool-cases (c == b'"')) [
    | inl quote ↦ escaped b'"' (ground (arith, slash, quote)) (λ lx. ground (arith, quote))
    | inr quote ↦ elim (Bool-cases (c == b'\n')) [
      | inl line ↦ escaped b'n' (ground (arith, slash, quote, line)) (λ lx. ground (arith, line))
      | inr line ↦ elim (Bool-cases (c == b'\t')) [
        | inl tab ↦
            escaped b't' (ground (arith, slash, quote, line, tab)) (λ lx. ground (arith, tab))
        | inr tab ↦ elim (Bool-cases (c == b'\r')) [
          | inl ret ↦
              escaped b'r' (ground (arith, slash, quote, line, tab, ret))
                (λ lx. ground (arith, ret))
          | inr ret ↦ plain (ground (arith, slash, quote, line, tab, ret)) quote line slash
        ]
      ]
    ]
  ]
]

plain_round :
    (fuel : ℕ) (buf : List ℕ) (pos : Position) (lx : Lexer) (c : ℕ) (rest : List ℕ)
    → At lx (c ∷ rest)
    → (c == b'"') ≡ false
    → (c == b'\n') ≡ false
    → (c == b'\\') ≡ false
    → string_loop (suc fuel) buf pos lx ≡ string_loop fuel (buf ++ (c ∷ [])) pos (advance lx)
unfolding string_loop
plain_round fuel buf pos lx c rest at quote line slash =
    let (here, inside, behind) = drop_head lx.input rest lx.pos c at in
    ground (arith, here, inside, quote, line, slash)

escaped_round :
    (fuel : ℕ) (buf : List ℕ) (pos : Position) (lx : Lexer) (c e : ℕ) (rest : List ℕ)
    → At lx (b'\\' ∷ e ∷ rest)
    → ((lx : Lexer) → escape e lx ≡ (pushes (c ∷ []), lx))
    → string_loop (suc fuel) buf pos lx
      ≡ string_loop fuel (buf ++ (c ∷ [])) pos (advance (advance lx))
unfolding string_loop escape_step
escaped_round fuel buf pos lx c e rest at pushed =
    let (here, inside, behind) = drop_head lx.input (e ∷ rest) lx.pos b'\\' at in
    let (here', inside', behind') =
      drop_head (advance lx).input rest (advance lx).pos e
        (advance-Moved lx b'\\' (e ∷ rest) at).at in
    let step : escape (peek (advance lx)) (advance (advance lx))
        ≡ (pushes (c ∷ []), advance (advance lx)) =
      ap (λ t. escape t (advance (advance lx))) here' ∙ pushed (advance (advance lx)) in
    ground (arith, here, inside, inside', step)

-- What comes of the bytes of a string at its closing quote.
abbrev pub closed : List ℕ → Position → Lexer → Outcome (Token × Lexer)
closed buf pos q =
    if is_utf8 buf
    then token TokenKind.string buf pos q
    else illegal (codes "string contains invalid UTF-8") pos q

closing_round :
    (fuel : ℕ) (buf : List ℕ) (pos : Position) (lx : Lexer) (rest : List ℕ)
    → At lx (b'"' ∷ rest)
    → string_loop (suc fuel) buf pos lx ≡ closed buf pos (advance lx)
unfolding string_loop
closing_round fuel buf pos lx rest at =
    let (here, inside, behind) = drop_head lx.input rest lx.pos b'"' at in
    ground (arith, here, inside)

-- The loop reads the quoted bytes and the quote behind them.
pub record Reads (s after : List ℕ) (fuel : ℕ) (buf : List ℕ) (pos : Position) (lx : Lexer)
    : Type 0 where
  pub q : Lexer
  pub moved : Moved lx q after (length (quote_bytes s) + 1)
  pub reads : string_loop fuel buf pos lx ≡ closed (buf ++ s) pos q

pub string_loop-quote_bytes :
    (s after : List ℕ) (fuel : ℕ) (buf : List ℕ) (pos : Position) (lx : Lexer)
    → At lx (quote_bytes s ++ (b'"' ∷ after))
    → length (quote_bytes s) < fuel
    → Reads s after fuel buf pos lx
unfolding quote_bytes
string_loop-quote_bytes s after zero buf pos lx at room = absurd (omega (arith, room))
string_loop-quote_bytes [] after (suc fuel) buf pos lx at room = record {
  q = advance lx;
  moved = advance-Moved lx b'"' after at;
  reads =
      closing_round fuel buf pos lx after at
      ∙ ap (λ t. closed t pos (advance lx)) (sym (append-nil buf));
}
string_loop-quote_bytes (c ∷ s) after (suc fuel) buf pos lx at room = elim (quote_byte-Quoted c) [
  | plain form quote line slash ↦
      let long : length (quote_bytes (c ∷ s)) ≡ suc (length (quote_bytes s)) =
        ap (λ t. length (t ++ quote_bytes s)) form in
      let at' : At lx (c ∷ (quote_bytes s ++ (b'"' ∷ after))) =
        at ∙ ap (λ t. (t ++ quote_bytes s) ++ (b'"' ∷ after)) form in
      let step = advance-Moved lx c (quote_bytes s ++ (b'"' ∷ after)) at' in
      let more =
        string_loop-quote_bytes s after fuel (buf ++ (c ∷ [])) pos (advance lx) step.at
          (omega (arith, room, long)) in
      record {
        q = more.q;
        moved = Moved-trans step more.moved (omega (arith, long));
        reads =
            plain_round fuel buf pos lx c (quote_bytes s ++ (b'"' ∷ after)) at' quote line slash
            ∙ more.reads
            ∙ ap (λ t. closed t pos more.q) (append_assoc buf (c ∷ []) s);
      }
  | escaped e form pushed ↦
      let long : length (quote_bytes (c ∷ s)) ≡ suc (suc (length (quote_bytes s))) =
        ap (λ t. length (t ++ quote_bytes s)) form in
      let at' : At lx (b'\\' ∷ e ∷ (quote_bytes s ++ (b'"' ∷ after))) =
        at ∙ ap (λ t. (t ++ quote_bytes s) ++ (b'"' ∷ after)) form in
      let step = advance-Moved lx b'\\' (e ∷ (quote_bytes s ++ (b'"' ∷ after))) at' in
      let step' = advance-Moved (advance lx) e (quote_bytes s ++ (b'"' ∷ after)) step.at in
      let more =
        string_loop-quote_bytes s after fuel (buf ++ (c ∷ [])) pos (advance (advance lx)) step'.at
          (omega (arith, room, long)) in
      record {
        q = more.q;
        moved = Moved-trans step (Moved-trans step' more.moved refl) (omega (arith, long));
        reads =
            escaped_round fuel buf pos lx c e (quote_bytes s ++ (b'"' ∷ after)) at' pushed
            ∙ more.reads
            ∙ ap (λ t. closed t pos more.q) (append_assoc buf (c ∷ []) s);
      }
]
