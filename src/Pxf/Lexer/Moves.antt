-- ===== src/Pxf/Lexer/Moves.antt =====
-- lexer.rs: termination of the lexer's calls, and how far they move it.
use protowire_rust.Prelude.{
  ℕ, zero, suc, ◌+◌, ◌-◌, ◌≤◌, ◌<◌, List, [], ◌∷◌, ◌++◌, Bool, true, false, not, ◌&&◌, ◌||◌, Option,
  none, some, ltb, leb, ◌==◌, ◌≡◌, ◌≢◌, ◌∙◌, refl, sym, ap, arith, Bool-cases, inl, inr, length,
  get_or, if◌then◌else◌, ltb→lt,
}
use protowire_rust.Wire.Utf8.{is_utf8}
use protowire_rust.Pxf.Token.{Position, Token, TokenKind}
use protowire_rust.Pxf.Lexer.Cursor.{
  Lexer, Outcome, returns, panics, stuck, advance, advance_by, advance_loop, advance_while, at_end,
  peek, peek_at, pass, slice_to_string, token_since, token, illegal, since, skip_spaces, ◌>>=◌,
}
use protowire_rust.Pxf.Lexer.Next.{is_eof}
use protowire_rust.Pxf.Lexer.Place.{advance_input, advance_pos, loop_goes, loop_halts}
pub mod Escapes
pub mod Quoted
pub mod Words
pub mod Next

-- A call that returns, with what it returns, or that panics: it does not run out of fuel.
pub data Ends {A : Type 0} (P : A → Type 0) : Outcome A → Type 0 where
  returned : {a : A} → P a → Ends P (returns a)
  panicked : Ends P panics

module _ {A B : Type 0} {Q : A → Type 0} {P : B → Type 0} where
  pub >>=-Ends :
      (m : Outcome A) (f : A → Outcome B)
      → Ends Q m
      → ((a : A) → Q a → Ends P (f a))
      → Ends P (m >>= f)
  >>=-Ends (returns a) f (returned h) k = k a h
  >>=-Ends panics f h k = panicked
  >>=-Ends stuck f h k = elim h [ ]

module _ {A : Type 0} {P : A → Type 0} where
  pub elim-Ends :
      (b : Bool) (x y : Outcome A)
      → (b ≡ true → Ends P x)
      → (b ≡ false → Ends P y)
      → Ends P (elim b [ true ↦ x | false ↦ y ])
  elim-Ends true x y h k = h refl
  elim-Ends false x y h k = k refl

  pub if-Ends :
      (b : Bool) (x y : Outcome A)
      → (b ≡ true → Ends P x)
      → (b ≡ false → Ends P y)
      → Ends P (if b then x else y)
  if-Ends true x y h k = h refl
  if-Ends false x y h k = k refl

pub slice_to_string-Ends : (s : List ℕ) → Ends (λ _. Unit {0}) (slice_to_string s)
unfolding slice_to_string
slice_to_string-Ends s = if-Ends (is_utf8 s) _ _ (λ _. returned tt) (λ _. panicked)

-- A lexer over `s` that stands at the offset `n` or behind it.
pub record IsPast (s : List ℕ) (n : ℕ) (lx : Lexer) : Type 0 where
  pub same : lx.input ≡ s
  pub from : n ≤ lx.pos
  pub inside : lx.pos ≤ length lx.input

pub IsPast-le : {s : List ℕ} {m n : ℕ} {lx : Lexer} → m ≤ n → IsPast s n lx → IsPast s m lx
IsPast-le le h = record { same = h.same; from = omega (arith, h.from); inside = h.inside }

pub advance-IsPast : {s : List ℕ} {n : ℕ} {lx : Lexer} → IsPast s n lx → IsPast s n (advance lx)
unfolding advance pass
advance-IsPast h = record {
  same = ground (arith, h.same);
  from = ground (arith, h.from);
  inside = ground (arith, h.inside);
}

-- With a byte to take, an advance is behind where it began.
pub advance_further :
    {s : List ℕ} {n : ℕ} {lx : Lexer}
    → at_end lx ≡ false
    → IsPast s n lx
    → IsPast s (suc n) (advance lx)
unfolding advance pass
advance_further more h = record {
  same = ground (arith, h.same);
  from = ground (arith, h.from);
  inside = ground (arith, h.inside);
}

pub advance_by-IsPast :
    (k : ℕ) {s : List ℕ} {n : ℕ} {lx : Lexer} → IsPast s n lx → IsPast s n (advance_by k lx)
unfolding advance_by
advance_by-IsPast zero h = h
advance_by-IsPast (suc k) h = advance_by-IsPast k (advance-IsPast h)

pub advance_loop-IsPast :
    (fuel : ℕ) (test : Lexer → Bool) {s : List ℕ} {n : ℕ} {lx : Lexer}
    → IsPast s n lx
    → IsPast s n (advance_loop fuel test lx)
unfolding advance_loop
advance_loop-IsPast zero test h = h
advance_loop-IsPast (suc fuel) test {s} {n} {lx} h =
    elim (Bool-cases (not (at_end lx) && test lx)) [
      | inl go ↦ rw (loop_goes fuel test lx go) (advance_loop-IsPast fuel test (advance-IsPast h))
      | inr halt ↦ rw (loop_halts (suc fuel) test lx halt) h
    ]

-- A loop whose test holds at once takes a byte.
pub advance_while_further :
    (test : Lexer → Bool) {s : List ℕ} {n : ℕ} {lx : Lexer}
    → at_end lx ≡ false
    → test lx ≡ true
    → IsPast s n lx
    → IsPast s (suc n) (advance_while test lx)
advance_while_further test {s} {n} {lx} more holds h = go (length lx.input) refl
  where
    go : (fuel : ℕ) → fuel ≡ length lx.input → IsPast s (suc n) (advance_loop fuel test lx)
    go zero e = absurd (ground (arith, more, h.inside))
    go (suc fuel) e =
        rw (loop_goes fuel test lx (rw (more, holds) refl))
          (advance_loop-IsPast fuel test (advance_further more h))

-- A token of the lexer behind the offset `n`, at a position, that is not the last.
abbrev pub Gives : List ℕ → ℕ → Position → Token × Lexer → Type 0
Gives s n pos r = (is_eof r.0.kind ≡ false) × (r.0.pos ≡ pos) × IsPast s n r.1

pub token_since-Gives :
    (kind : TokenKind) (start : ℕ) (pos : Position) {s : List ℕ} {n : ℕ} {lx : Lexer}
    → is_eof kind ≡ false
    → IsPast s n lx
    → Ends (Gives s n pos) (token_since kind start pos lx)
token_since-Gives kind start pos {s} {n} {lx} no_end h =
    >>=-Ends (slice_to_string (since start lx)) _ (slice_to_string-Ends (since start lx))
      λ value _. returned (no_end, refl, h)

pub IsPast-here : {s : List ℕ} {n : ℕ} {lx : Lexer} → IsPast s n lx → IsPast s lx.pos lx
IsPast-here h = record { same = h.same; from = omega arith; inside = h.inside }

-- A round that takes a byte: the fuel that is left is enough again.
pub round :
    {s : List ℕ} {n : ℕ} {lx : Lexer} (fuel : ℕ)
    → at_end lx ≡ false
    → IsPast s n lx
    → length s < lx.pos + suc fuel
    → IsPast s n (advance lx) × (length s < (advance lx).pos + fuel)
round fuel more h room =
    let next = advance_further more (IsPast-here h) in (advance-IsPast h, omega (arith, next.from))

-- No fuel is left only behind the end.
pub no_room : {s : List ℕ} {n : ℕ} {lx : Lexer} → IsPast s n lx → length s < lx.pos + 0 → ⊥
no_room h room = omega (arith, h.inside, ap length h.same)

-- The fuel that a loop gets at first.
pub full : {s : List ℕ} {n : ℕ} {lx : Lexer} → IsPast s n lx → length s < lx.pos + suc (length s)
full h = omega arith
