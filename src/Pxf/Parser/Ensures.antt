-- ===== src/Pxf/Parser/Ensures.antt =====
-- What a parse that succeeds ensures, for parser.rs: a postcondition, and how it goes through a chain
-- of calls. And what every move of the parser keeps.
use protowire_rust.Prelude.{
  ℕ, zero, suc, ◌≤◌, Bool, true, false, ◌≡◌, refl, ◌∙◌, arith, Bool-cases, inl, inr, leb, length,
}
use protowire_rust.Pxf.Token.{Position, TokenKind}
use protowire_rust.Pxf.Lexer.Next.{next_token}
use protowire_rust.Pxf.Parser.State.{
  Parser, Result, Reason, ok, err, panics, stuck, ◌>>=◌, ◌>>◌, guard, lift, same, enter, leave,
  advance, advance_loop,
}

pub data Ensures {A : Type 0} (P : A → Type 0) : Result A → Type 0 where
  ensured : {a : A} → P a → Ensures P (ok a)
  failed : {pos : Position} {reason : Reason} → Ensures P (err pos reason)
  panicked : Ensures P panics
  ran_out : Ensures P stuck

module _ {A : Type 0} {P : A → Type 0} where
  pub Ensures-ok : {a : A} → Ensures P (ok a) → P a
  Ensures-ok (ensured h) = h

  pub guard-Ensures :
      (b : Bool) (pos : Position) (reason : Reason) (k : Result A)
      → (b ≡ true → Ensures P k)
      → Ensures P (guard b pos reason >> k)
  unfolding guard
  guard-Ensures true pos reason k h = h refl
  guard-Ensures false pos reason k h = failed

  pub elim-Ensures :
      (b : Bool) (x y : Result A)
      → (b ≡ true → Ensures P x)
      → (b ≡ false → Ensures P y)
      → Ensures P (elim b [ true ↦ x | false ↦ y ])
  elim-Ensures true x y h k = h refl
  elim-Ensures false x y h k = k refl

  pub anything-Ensures : (r : Result A) → ((a : A) → P a) → Ensures P r
  anything-Ensures (ok a) h = ensured (h a)
  anything-Ensures (err pos reason) h = failed
  anything-Ensures panics h = panicked
  anything-Ensures stuck h = ran_out

pub >>=-Ensures :
    {A B : Type 0} {Q : A → Type 0} {P : B → Type 0} (m : Result A) (f : A → Result B)
    → Ensures Q m
    → ((a : A) → Q a → Ensures P (f a))
    → Ensures P (m >>= f)
>>=-Ensures (ok a) f (ensured h) k = k a h
>>=-Ensures (err pos reason) f h k = failed
>>=-Ensures panics f h k = panicked
>>=-Ensures stuck f h k = ran_out

pub Ensures-map :
    {A : Type 0} {P Q : A → Type 0} {r : Result A}
    → ((a : A) → P a → Q a)
    → Ensures P r
    → Ensures Q r
Ensures-map f (ensured h) = ensured (f _ h)
Ensures-map f failed = failed
Ensures-map f panicked = panicked
Ensures-map f ran_out = ran_out

-- What a move leaves as it is, but for the tokens.
pub record Keeps (p q : Parser) : Type 0 where
  pub depth : q.depth ≡ p.depth
  pub limit : q.limits.max_nesting_depth ≡ p.limits.max_nesting_depth

pub Keeps-refl : (p : Parser) → Keeps p p
Keeps-refl p = record { depth = refl; limit = refl }

pub Keeps-trans : {p q r : Parser} → Keeps p q → Keeps q r → Keeps p r
Keeps-trans h k = record { depth = k.depth ∙ h.depth; limit = k.limit ∙ h.limit }

advance_loop-Keeps : (fuel : ℕ) {p q : Parser} → Keeps p q → Ensures (Keeps p) (advance_loop fuel q)
unfolding advance_loop
advance_loop-Keeps zero h = ran_out
advance_loop-Keeps (suc fuel) {p} {q} h =
    >>=-Ensures {Q = λ _. Unit {0}} {P = Keeps p} (lift (next_token q.lex)) _
      (anything-Ensures _ (λ _. tt))
      λ (t, lex) _.
        elim-Ensures (same t.kind TokenKind.newline) _ _
          (λ _. advance_loop-Keeps fuel (record { depth = h.depth; limit = h.limit }))
          (λ _.
            elim-Ensures (same t.kind TokenKind.comment) _ _
              (λ _. advance_loop-Keeps fuel (record { depth = h.depth; limit = h.limit }))
              (λ _. ensured (record { depth = h.depth; limit = h.limit })))

pub advance-Keeps : {p q : Parser} → Keeps p q → Ensures (Keeps p) (advance q)
unfolding advance
advance-Keeps {p} {q} h = advance_loop-Keeps (suc (length q.lex.input)) h

-- One level down, which the limit of the parser admits.
pub record IsEntered (p q : Parser) : Type 0 where
  pub depth : q.depth ≡ suc p.depth
  pub limit : q.limits.max_nesting_depth ≡ p.limits.max_nesting_depth
  pub room : suc p.depth ≤ p.limits.max_nesting_depth

pub enter-IsEntered : (pos : Position) (p : Parser) → Ensures (IsEntered p) (enter pos p)
unfolding enter
enter-IsEntered pos p = elim (Bool-cases (leb p.limits.max_nesting_depth p.depth)) [
  | inl full ↦ rw full failed
  | inr free ↦ rw free (ensured (record { depth = omega arith; limit = refl; room = ground arith }))
]

-- What an entered body leaves is what was there before.
pub leave-Keeps : {p q r : Parser} → IsEntered p q → Keeps q r → Keeps p (leave r)
unfolding leave
leave-Keeps e h = record { depth = omega (arith, e.depth, h.depth); limit = h.limit ∙ e.limit }
