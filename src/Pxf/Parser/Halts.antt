-- ===== src/Pxf/Parser/Halts.antt =====
-- crates/protowire-pxf/src/parser.rs: termination of the parser's moves, and what is left to read
-- behind them.
use protowire_rust.Prelude.{
  ℕ, zero, suc, ◌+◌, ◌-◌, ◌≤◌, ◌<◌, List, Bool, true, false, ◌==◌, ◌≡◌, ◌≢◌, refl, sym, ◌∙◌, ap,
  arith, Bool-cases, inl, inr, length, leb, if◌then◌else◌, Option, none, some,
}
use protowire_rust.Pxf.Token.{Position, Token, TokenKind, with_offset}
use protowire_rust.Pxf.Lexer.Cursor.{Lexer, Outcome, current_pos}
use protowire_rust.Pxf.Lexer.Next.{next_token, is_eof}
use protowire_rust.Pxf.Lexer.Moves.{Ends, IsPast}
use protowire_rust.Pxf.Lexer.Moves
use protowire_rust.Pxf.Lexer.Moves.Next.{IsStep, next_token_moves, skip_spaces-IsPast}
use protowire_rust.Pxf.Parser.State.{
  Parser, Result, Reason, ok, err, panics, stuck, ◌>>=◌, ◌>>◌, guard, lift, same, kind_index, kind,
  at, enter, leave, advance, advance_loop, flush_comments,
}

-- A call that returns, with what it returns, fails or panics: it does not run out of fuel.
pub data Halts {A : Type 0} (P : A → Type 0) : Result A → Type 0 where
  returned : {a : A} → P a → Halts P (ok a)
  failed : {pos : Position} {reason : Reason} → Halts P (err pos reason)
  panicked : Halts P panics

module _ {A : Type 0} {P : A → Type 0} where
  pub guard-Halts :
      (b : Bool) (pos : Position) (reason : Reason) (k : Result A)
      → (b ≡ true → Halts P k)
      → Halts P (guard b pos reason >> k)
  unfolding guard
  guard-Halts true pos reason k h = h refl
  guard-Halts false pos reason k h = failed

  pub elim-Halts :
      (b : Bool) (x y : Result A)
      → (b ≡ true → Halts P x)
      → (b ≡ false → Halts P y)
      → Halts P (elim b [ true ↦ x | false ↦ y ])
  elim-Halts true x y h k = h refl
  elim-Halts false x y h k = k refl

pub >>=-Halts :
    {A B : Type 0} {Q : A → Type 0} {P : B → Type 0} (m : Result A) (f : A → Result B)
    → Halts Q m
    → ((a : A) → Q a → Halts P (f a))
    → Halts P (m >>= f)
>>=-Halts (ok a) f (returned h) k = k a h
>>=-Halts (err pos reason) f h k = failed
>>=-Halts panics f h k = panicked
>>=-Halts stuck f h k = elim h [ ]

pub Option-Halts :
    {A : Type 0} {B : Type 0} {P : B → Type 0} (v : Option A) (x : Result B) (f : A → Result B)
    → (v ≡ none → Halts P x)
    → ((a : A) → v ≡ some a → Halts P (f a))
    → Halts P (elim v as (λ _. Result B) [ none ↦ x | some a ↦ f a ])
Option-Halts none x f h k = h refl
Option-Halts (some a) x f h k = k a refl

pub Halts-map :
    {A : Type 0} {P Q : A → Type 0} {r : Result A} → ((a : A) → P a → Q a) → Halts P r → Halts Q r
Halts-map f (returned {a = a} h) = returned (f a h)
Halts-map f failed = failed
Halts-map f panicked = panicked

pub Halts-ne-stuck : {A : Type 0} {P : A → Type 0} {r : Result A} → Halts P r → r ≢ stuck
Halts-ne-stuck (returned h) e = cc
Halts-ne-stuck failed e = cc
Halts-ne-stuck panicked e = cc

pub lift-Halts : {A : Type 0} {P : A → Type 0} {r : Outcome A} → Ends P r → Halts P (lift r)
lift-Halts (Moves.returned h) = returned h
lift-Halts Moves.panicked = panicked

-- 1 where a token is at hand, and 0 at the end.
unfoldable pub at_hand : TokenKind → ℕ
unfolding is_eof
at_hand k = if is_eof k then 0 else 1

pub at_hand-le : (k : TokenKind) → at_hand k ≤ 1
unfolding at_hand
at_hand-le k = ground arith

is_eof-index : (k : TokenKind) → is_eof k ≡ (kind_index k == 0)
unfolding is_eof kind_index
is_eof-index TokenKind.eof = refl
is_eof-index _ = refl

pub same-is_eof : (a b : TokenKind) → same a b ≡ true → is_eof b ≡ false → is_eof a ≡ false
unfolding same
same-is_eof a b e h = ground (arith, e, h, is_eof-index a, is_eof-index b)

same_eof : (a : TokenKind) → same a TokenKind.eof ≡ is_eof a
unfolding same kind_index
same_eof a = ground (arith, is_eof-index a)

-- A token of one of the other kinds is at hand, and so is one that is not the end.
pub at-at_hand :
    (k : TokenKind) (p : Parser) → at k p ≡ true → is_eof k ≡ false → at_hand (kind p) ≡ 1
unfolding at_hand
at-at_hand k p e h = rw (same-is_eof (kind p) k e h) refl

pub inner-at_hand : (p : Parser) → at TokenKind.eof p ≡ false → at_hand (kind p) ≡ 1
unfolding at_hand
inner-at_hand p e = rw (sym (same_eof (kind p)) ∙ e) refl

-- The bytes of `s` that are not lexed, and the token at hand, are fewer than `m`. So are the bytes
-- from the token at hand on.
pub record IsUnder (s : List ℕ) (m : ℕ) (p : Parser) : Type 0 where
  pub same : p.lex.input ≡ s
  pub inside : p.lex.pos ≤ length s
  pub below : length s + at_hand (kind p) < p.lex.pos + m
  pub ahead : length s < p.current.pos.offset + m

pub IsUnder-le : {s : List ℕ} {m n : ℕ} {p : Parser} → m ≤ n → IsUnder s m p → IsUnder s n p
IsUnder-le le h = record {
  same = h.same;
  inside = h.inside;
  below = omega (arith, h.below, le);
  ahead = omega (arith, h.ahead, le);
}

offset-ahead :
    (lx : Lexer) (r : Token × Lexer)
    → lx.pos ≤ length lx.input
    → IsStep lx r
    → lx.pos ≤ r.0.pos.offset
unfolding current_pos with_offset
offset-ahead lx r inside h =
    let start =
      skip_spaces-IsPast {s = lx.input} {n = lx.pos} {lx = lx}
        (record { same = refl; from = omega arith; inside = inside }) in
    rw h.placed start.from

module _ {s : List ℕ} {m : ℕ} where
  advance_loop-Halts :
      (fuel : ℕ) (p : Parser)
      → p.lex.input ≡ s
      → p.lex.pos ≤ length s
      → length s < p.lex.pos + fuel
      → length s < p.lex.pos + m
      → Halts (IsUnder s m) (advance_loop fuel p)
  unfolding advance_loop at_hand
  advance_loop-Halts zero p e inside fuelled room = absurd (omega (arith, inside, fuelled))
  advance_loop-Halts (suc fuel) p e inside fuelled room =
      >>=-Halts (lift (next_token p.lex)) _
        (lift-Halts (next_token_moves p.lex (omega (arith, inside, ap length e))))
        λ (t, lex) h.
          let next = h.past in
          let again : is_eof t.kind ≡ false → length s < lex.pos + fuel =
            λ other. omega (arith, h.further other, fuelled) in
          let within : lex.pos ≤ length s =
            omega (arith, next.inside, ap length next.same, ap length e) in
          elim-Halts (same t.kind TokenKind.newline) _ _
            (λ line.
              advance_loop-Halts fuel _ (next.same ∙ e) within
                (again (same-is_eof t.kind TokenKind.newline line refl))
                (omega (arith, next.from, room)))
            (λ _.
              elim-Halts (same t.kind TokenKind.comment) _ _
                (λ line.
                  advance_loop-Halts fuel _ (next.same ∙ e) within
                    (again (same-is_eof t.kind TokenKind.comment line refl))
                    (omega (arith, next.from, room)))
                (λ _. returned (record {
                  same = next.same ∙ e;
                  inside = within;
                  below = elim (Bool-cases (is_eof t.kind)) [
                    | inl last ↦ rw last (omega (arith, next.from, room))
                    | inr other ↦ rw other (omega (arith, h.further other, room))
                  ];
                  ahead = omega (
                    arith,
                    offset-ahead p.lex (t, lex) (omega (arith, inside, ap length e)) h,
                    room,
                  );
                })))

  -- A move in front of `m` bytes.
  pub advance-room :
      (p : Parser)
      → p.lex.input ≡ s
      → p.lex.pos ≤ length s
      → length s < p.lex.pos + m
      → Halts (IsUnder s m) (advance p)
  unfolding advance
  advance-room p e inside room =
      advance_loop-Halts (suc (length p.lex.input)) p e inside (omega (arith, ap length e)) room

  -- A move leaves no more than before, and less where a token is at hand.
  pub advance-IsUnder : {p : Parser} → IsUnder s m p → Halts (IsUnder s m) (advance p)
  advance-IsUnder {p} h = advance-room p h.same h.inside (omega (arith, h.below))

pub advance-less :
    {s : List ℕ} {m : ℕ} {p : Parser}
    → IsUnder s m p
    → at_hand (kind p) ≡ 1
    → Halts (IsUnder s (m - 1)) (advance p)
advance-less {p = p} h hand =
    advance-room p h.same h.inside (omega (arith, h.below, h.inside, hand))

-- Nothing is under 0.
pub under_none : {s : List ℕ} {m : ℕ} {p : Parser} → m ≡ 0 → IsUnder s m p → ⊥
under_none e h = omega (arith, h.below, h.inside, e)

module _ {s : List ℕ} {m : ℕ} where
  pub flush_comments-IsUnder : {p : Parser} → IsUnder s m p → IsUnder s m (flush_comments p)
  flush_comments-IsUnder h = record {
    same = h.same;
    inside = h.inside;
    below = h.below;
    ahead = h.ahead;
  }

  pub leave-IsUnder : {p : Parser} → IsUnder s m p → IsUnder s m (leave p)
  unfolding leave
  leave-IsUnder h = record { same = h.same; inside = h.inside; below = h.below; ahead = h.ahead }

  pub enter-IsUnder :
      (pos : Position) {p : Parser}
      → IsUnder s m p
      → Halts (λ q. IsUnder s m q × (kind q ≡ kind p)) (enter pos p)
  unfolding enter
  enter-IsUnder pos {p} h = elim (Bool-cases (leb p.limits.max_nesting_depth p.depth)) [
    | inl full ↦ rw full failed
    | inr free ↦ rw free (
        returned
          (record { same = h.same; inside = h.inside; below = h.below; ahead = h.ahead }, refl))
  ]
