-- ===== src/Pxf/Lexer/Place.antt =====
-- The positions that lexer.rs reports, against the bytes before the cursor.
use protowire_rust.Prelude.{
  ℕ, zero, suc, ◌+◌, ◌≤◌, ◌<◌, List, [], ◌∷◌, Bool, true, false, not, ◌&&◌, ltb, ◌==◌,
  if◌then◌else◌, length, get_or, take, ◌≡◌, refl, arith, Bool-cases, inl, inr,
}
use protowire_rust.Pxf.Lexer.Cursor.{Lexer, advance, advance_loop, reposition_to, at_end, pass}

-- The line breaks of a text, and the bytes after its last one, where `k` are before it.
unfoldable pub newlines : List ℕ → ℕ
newlines [] = 0
newlines (c ∷ s) = let rest = newlines s in if c == b'\n' then rest + 1 else rest

unfoldable pub after_newline : ℕ → List ℕ → ℕ
after_newline k [] = k
after_newline k (c ∷ s) = after_newline (if c == b'\n' then 0 else k + 1) s

-- The cursor is inside the input, and its line and column are those of the bytes before it.
pub record IsPlaced (lx : Lexer) : Type 0 where
  pub within : lx.pos ≤ length lx.input
  pub line : lx.line ≡ 1 + newlines (take lx.pos lx.input)
  pub column : lx.col ≡ 1 + after_newline 0 (take lx.pos lx.input)

newlines_step :
    (s : List ℕ) (p : ℕ)
    → p < length s
    → newlines (take (p + 1) s)
      ≡ (if get_or s p 0 == b'\n' then newlines (take p s) + 1 else newlines (take p s))
unfolding newlines
newlines_step [] p h = omega arith
newlines_step (c ∷ s) zero h = ground arith
newlines_step (c ∷ s) (suc p) h = ground (arith, newlines_step s p)

after_newline_step :
    (k : ℕ) (s : List ℕ) (p : ℕ)
    → p < length s
    → after_newline k (take (p + 1) s)
      ≡ (if get_or s p 0 == b'\n' then 0 else after_newline k (take p s) + 1)
unfolding after_newline
after_newline_step k [] p h = omega arith
after_newline_step k (c ∷ s) zero h = ground arith
after_newline_step k (c ∷ s) (suc p) h =
    ground (arith, after_newline_step (if c == b'\n' then 0 else k + 1) s p)

pub advance_input : (lx : Lexer) → (advance lx).input ≡ lx.input
unfolding advance pass
advance_input lx = ground arith

pub advance_pos : (lx : Lexer) → lx.pos < length lx.input → (advance lx).pos ≡ lx.pos + 1
unfolding advance pass
advance_pos lx h = ground arith

pub advance-IsPlaced : (lx : Lexer) → IsPlaced lx → IsPlaced (advance lx)
unfolding advance pass
advance-IsPlaced lx h = elim (Bool-cases (at_end lx)) [
  | inl done ↦ rw done h
  | inr more ↦
      let n = newlines_step lx.input lx.pos (ground arith) in
      let c = after_newline_step 0 lx.input lx.pos (ground arith) in
      record {
        within = ground (arith, h.within);
        line = ground (arith, h.line, n);
        column = ground (arith, h.column, c);
      }
]

-- One round of the loop, where its test holds and where it does not.
pub loop_goes :
    (fuel : ℕ) (test : Lexer → Bool) (lx : Lexer)
    → (not (at_end lx) && test lx) ≡ true
    → advance_loop (suc fuel) test lx ≡ advance_loop fuel test (advance lx)
unfolding advance_loop
loop_goes fuel test lx go = rw (advance_loop, go) refl

pub loop_halts :
    (fuel : ℕ) (test : Lexer → Bool) (lx : Lexer)
    → (not (at_end lx) && test lx) ≡ false
    → advance_loop fuel test lx ≡ lx
unfolding advance_loop
loop_halts zero test lx halt = refl
loop_halts (suc fuel) test lx halt = rw (advance_loop, halt) refl

pub loop-IsPlaced :
    (fuel : ℕ) (test : Lexer → Bool) (lx : Lexer)
    → IsPlaced lx
    → IsPlaced (advance_loop fuel test lx)
unfolding advance_loop
loop-IsPlaced zero test lx h = h
loop-IsPlaced (suc fuel) test lx h = elim (Bool-cases (not (at_end lx) && test lx)) [
  | inl go ↦
      rw (loop_goes fuel test lx go) (loop-IsPlaced fuel test (advance lx) (advance-IsPlaced lx h))
  | inr halt ↦ rw (loop_halts (suc fuel) test lx halt) h
]

pub reach :
    (fuel target : ℕ) (lx : Lexer)
    → lx.pos ≤ target
    → target ≤ length lx.input
    → target ≤ lx.pos + fuel
    → (advance_loop fuel (λ q. ltb q.pos target) lx).pos ≡ target
unfolding advance_loop
reach zero target lx lower upper enough = omega arith
reach (suc fuel) target lx lower upper enough =
    elim (Bool-cases (not (at_end lx) && ltb lx.pos target)) [
      | inl go ↦
          let here = advance_pos lx (ground arith) in
          rw (loop_goes fuel (λ q. ltb q.pos target) lx go) (
            reach fuel target (advance lx) (ground (arith, here)) (ground (arith, advance_input lx))
              (omega (arith, here)))
      | inr halt ↦ rw (loop_halts (suc fuel) (λ q. ltb q.pos target) lx halt) (ground arith)
    ]

-- Wherever the lexer stands, `reposition_to` an offset inside the input moves it to that offset,
-- with the line and column of the bytes before it, when its line and column were those before.
pub reposition_to-IsPlaced :
    (lx : Lexer) (target : ℕ)
    → IsPlaced lx
    → target ≤ length lx.input
    → IsPlaced (reposition_to target lx) × ((reposition_to target lx).pos ≡ target)
unfolding reposition_to
reposition_to-IsPlaced lx target h inside = elim (Bool-cases (ltb target lx.pos)) [
  | inl back ↦
      let start = record lx { pos = 0; line = 1; col = 1 } in
      rw back (
        loop-IsPlaced (length lx.input) (λ q. ltb q.pos target) start
            (record {
              within = omega arith;
              line = unfold newlines in refl;
              column = unfold after_newline in refl;
            }),
        reach (length lx.input) target start (omega arith) inside (omega arith),
      )
  | inr on ↦ rw on (
    loop-IsPlaced (length lx.input) (λ q. ltb q.pos target) lx h,
    reach (length lx.input) target lx (ground arith) inside (omega arith),
  )
]
