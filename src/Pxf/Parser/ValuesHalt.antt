-- ===== src/Pxf/Parser/ValuesHalt.antt =====
-- crates/protowire-pxf/src/parser.rs, lines 598 to 864: termination of values and entries, on four
-- rounds for each byte.
use protowire_rust.Prelude.{
  ℕ, zero, suc, ◌+◌, ◌-◌, ◌*◌, ◌≤◌, List, Bool, true, false, ◌||◌, ◌≡◌, ◌∙◌, ap, refl, arith, inl,
  inr, some, Option-cases,
}
use protowire_rust.Pxf.Token.{Position, Token, TokenKind}
use protowire_rust.Pxf.Ast.{Value, cons, entry, assignment, map_entry, block_entry, list, block}
use protowire_rust.Pxf.Lexer.Next.{is_eof}
use protowire_rust.Pxf.Parser.Values.{
  scalar, parse_type_entry, entry_head, close_list, close_body, parse_value, parse_list, list_loop,
  parse_block_val, parse_body, body_loop, parse_entry, take_comma,
}
use protowire_rust.Pxf.Parser.State.{Parser, at, kind, enter, advance, flush_comments}
use protowire_rust.Pxf.Parser.Halts.{
  Halts, returned, failed, guard-Halts, elim-Halts, >>=-Halts, at_hand, at-at_hand, inner-at_hand,
  IsUnder, IsUnder-le, advance-IsUnder, advance-less, under_none, flush_comments-IsUnder,
  leave-IsUnder, enter-IsUnder,
}

-- A token that is a value is not the end.
scalar-at_hand : (k : TokenKind) (t : Token) (v : Value) → scalar k t ≡ some v → at_hand k ≡ 1
unfolding scalar at_hand is_eof
scalar-at_hand TokenKind.eof t v e = ground (arith, e)
scalar-at_hand _ t v e = refl

-- An opening bracket of a list or a body is no end, and an element of either is none.
or_eof-at_hand : (b : Bool) (p : Parser) → (b || at TokenKind.eof p) ≡ false → at_hand (kind p) ≡ 1
or_eof-at_hand b p e = inner-at_hand p (ground (arith, e))

key-at_hand :
    (p : Parser)
    → (at TokenKind.ident p || at TokenKind.string p || at TokenKind.int p || at TokenKind.bool p)
      ≡ true
    → at_hand (kind p) ≡ 1
unfolding is_eof
key-at_hand p e = ground (
  arith,
  e,
  at-at_hand TokenKind.ident p,
  at-at_hand TokenKind.string p,
  at-at_hand TokenKind.int p,
  at-at_hand TokenKind.bool p,
)

module _ {s : List ℕ} {m : ℕ} where
  parse_type_entry-Halts :
      (first : Bool) (p : Parser)
      → at TokenKind.at_type p ≡ true
      → IsUnder s m p
      → Halts (λ r. IsUnder s (m - 1) r.1) (parse_type_entry first p)
  unfolding parse_type_entry is_eof
  parse_type_entry-Halts first p opens h = guard-Halts first _ _ _ λ _.
      >>=-Halts (advance (flush_comments p)) _
        (advance-less (flush_comments-IsUnder h) (at-at_hand TokenKind.at_type p opens refl))
        λ q hq. guard-Halts (at TokenKind.equals q) _ _ _ λ _.
          >>=-Halts (advance q) _ (advance-IsUnder hq) λ r hr.
            guard-Halts (at TokenKind.string r) _ _ _
              λ _. >>=-Halts (advance r) _ (advance-IsUnder hr) λ t ht. returned ht

  entry_head-Halts :
      (p : Parser) → IsUnder s m p → Halts (λ r. IsUnder s (m - 1) r.2) (entry_head p)
  unfolding entry_head
  entry_head-Halts p h =
      guard-Halts
        (at TokenKind.ident p || at TokenKind.string p || at TokenKind.int p || at TokenKind.bool p)
        _ _ _
        λ key. guard-Halts _ _ _ _ λ _.
          >>=-Halts (advance (flush_comments p)) _
            (advance-less (flush_comments-IsUnder h) (key-at_hand p key)) λ q hq. returned hq

  close_list-Halts : (p : Parser) → IsUnder s m p → Halts (IsUnder s m) (close_list p)
  unfolding close_list
  close_list-Halts p h =
      guard-Halts _ _ _ _
        λ _. >>=-Halts (advance p) _ (advance-IsUnder h) λ q hq. returned (leave-IsUnder hq)

  close_body-Halts : (p : Parser) → IsUnder s m p → Halts (IsUnder s m) (close_body p)
  unfolding close_body
  close_body-Halts p h =
      guard-Halts _ _ _ _
        λ _. >>=-Halts (advance p) _ (advance-IsUnder h) λ q hq. returned (leave-IsUnder hq)

  take_comma-Halts : (p : Parser) → IsUnder s m p → Halts (IsUnder s m) (take_comma p)
  take_comma-Halts p h =
      elim-Halts (at TokenKind.comma p) _ _ (λ _. advance-IsUnder h) (λ _. returned h)

abbrev pub Under : {A : Type 0} → List ℕ → ℕ → A × Parser → Type 0
Under s m r = IsUnder s m r.1

mutual
  unfolding parse_value parse_list list_loop parse_block_val parse_body body_loop parse_entry is_eof

  pub parse_value-Halts :
      (fuel : ℕ) {s : List ℕ} {m : ℕ} (p : Parser)
      → 4 * m ≤ fuel
      → IsUnder s m p
      → Halts (Under s (m - 1)) (parse_value fuel p)
  parse_value-Halts zero p room h = absurd (under_none (omega (arith, room)) h)
  parse_value-Halts (suc fuel) p room h = elim (Option-cases (scalar (kind p) p.current)) [
    | inr (v, e) ↦
        rw (e, parse_value)
          (>>=-Halts (advance p) _ (advance-less h (scalar-at_hand (kind p) p.current v e))
            λ q hq. returned {a = (v, q)} hq)
    | inl e ↦
        rw (e, parse_value)
          (elim-Halts (at TokenKind.l_bracket p) _ _ (λ opens. parse_list-Halts fuel p room opens h)
            λ _.
              elim-Halts (at TokenKind.l_brace p) _ _
                (λ opens. parse_block_val-Halts fuel p room opens h) λ _. failed)
  ]

  parse_list-Halts :
      (fuel : ℕ) {s : List ℕ} {m : ℕ} (p : Parser)
      → 4 * m ≤ suc fuel
      → at TokenKind.l_bracket p ≡ true
      → IsUnder s m p
      → Halts (Under s (m - 1)) (parse_list fuel p)
  parse_list-Halts zero p room opens h = absurd (under_none (omega (arith, room)) h)
  parse_list-Halts (suc fuel) p room opens h =
      >>=-Halts (enter p.current.pos p) _ (enter-IsUnder p.current.pos h) λ entered (e, k).
        >>=-Halts (advance entered) _
          (advance-less e (ap at_hand k ∙ at-at_hand TokenKind.l_bracket p opens refl))
          λ q hq.
            >>=-Halts (list_loop fuel q) _
              (list_loop-Halts fuel q (omega (arith, room, h.below, h.inside)) hq)
              λ (vs, r) hr.
                >>=-Halts (close_list r) _ (close_list-Halts r hr)
                  λ t ht. returned {a = (list p.current.pos vs, t)} ht

  list_loop-Halts :
      (fuel : ℕ) {s : List ℕ} {m : ℕ} (p : Parser)
      → 4 * m + 2 ≤ fuel
      → IsUnder s m p
      → Halts (Under s m) (list_loop fuel p)
  list_loop-Halts zero p room h = absurd (omega (arith, room))
  list_loop-Halts (suc fuel) p room h =
      elim-Halts (at TokenKind.r_bracket p || at TokenKind.eof p) _ _ (λ _. returned h)
        λ more.
          >>=-Halts (parse_value fuel p) _ (parse_value-Halts fuel p (omega (arith, room)) h)
            λ (v, q) hv. >>=-Halts (take_comma q) _ (take_comma-Halts q hv) λ r hr.
              >>=-Halts (list_loop fuel r) _
                (list_loop-Halts fuel r (omega (arith, room, h.below, h.inside)) hr)
                λ (vs, t) ht. returned {a = (cons v vs, t)} (IsUnder-le (omega arith) ht)

  pub parse_block_val-Halts :
      (fuel : ℕ) {s : List ℕ} {m : ℕ} (p : Parser)
      → 4 * m ≤ suc fuel
      → at TokenKind.l_brace p ≡ true
      → IsUnder s m p
      → Halts (Under s (m - 1)) (parse_block_val fuel p)
  parse_block_val-Halts zero p room opens h = absurd (under_none (omega (arith, room)) h)
  parse_block_val-Halts (suc fuel) p room opens h =
      >>=-Halts (advance p) _ (advance-less h (at-at_hand TokenKind.l_brace p opens refl)) λ q hq.
        >>=-Halts (parse_body fuel p.current.pos q) _
          (parse_body-Halts fuel p.current.pos q (omega (arith, room, h.below, h.inside)) hq)
          λ (es, r) hr. returned {a = (block p.current.pos es, r)} hr

  parse_body-Halts :
      (fuel : ℕ) (pos : Position) {s : List ℕ} {m : ℕ} (p : Parser)
      → 4 * m + 2 ≤ fuel
      → IsUnder s m p
      → Halts (Under s m) (parse_body fuel pos p)
  parse_body-Halts zero pos p room h = absurd (omega (arith, room))
  parse_body-Halts (suc fuel) pos p room h =
      >>=-Halts (enter pos p) _ (enter-IsUnder pos h) λ entered (e, k).
        >>=-Halts (body_loop fuel true entered) _
          (body_loop-Halts fuel true entered (omega (arith, room)) e)
          λ (es, q) hq.
            >>=-Halts (close_body q) _ (close_body-Halts q hq) λ r hr. returned {a = (es, r)} hr

  body_loop-Halts :
      (fuel : ℕ) (first : Bool) {s : List ℕ} {m : ℕ} (p : Parser)
      → 4 * m + 1 ≤ fuel
      → IsUnder s m p
      → Halts (Under s m) (body_loop fuel first p)
  body_loop-Halts zero first p room h = absurd (omega (arith, room))
  body_loop-Halts (suc fuel) first {s} {m} p room h =
      elim-Halts (at TokenKind.r_brace p || at TokenKind.eof p) _ _ (λ _. returned h)
        λ _.
          >>=-Halts {Q = Under s (m - 1)}
            (elim (at TokenKind.at_type p) [
              | true ↦ parse_type_entry first p
              | false ↦ parse_entry fuel true p
            ])
            _
            (elim-Halts (at TokenKind.at_type p) _ _
              (λ opens. parse_type_entry-Halts first p opens h)
              (λ _. parse_entry-Halts fuel true p (omega (arith, room)) h))
            λ (x, q) hx.
              >>=-Halts (body_loop fuel false q) _
                (body_loop-Halts fuel false q (omega (arith, room, h.below, h.inside)) hx)
                λ (es, r) hr. returned {a = (entry x es, r)} (IsUnder-le (omega arith) hr)

  pub parse_entry-Halts :
      (fuel : ℕ) (allow : Bool) {s : List ℕ} {m : ℕ} (p : Parser)
      → 4 * m ≤ fuel
      → IsUnder s m p
      → Halts (Under s (m - 1)) (parse_entry fuel allow p)
  parse_entry-Halts zero allow p room h = absurd (under_none (omega (arith, room)) h)
  parse_entry-Halts (suc fuel) allow p room h =
      let less = h.below in
      let within = h.inside in
      >>=-Halts (entry_head p) _ (entry_head-Halts p h) λ (k, g, q) hq.
        elim-Halts (at TokenKind.equals q) _ _
          (λ _. guard-Halts _ _ _ _ λ _. >>=-Halts (advance q) _ (advance-IsUnder hq) λ r hr.
            >>=-Halts (parse_value fuel r) _
              (parse_value-Halts fuel r (omega (arith, room, less, within)) hr)
              λ (v, t) ht. returned {a = (assignment g v, t)} (IsUnder-le (omega arith) ht))
          λ _.
            elim-Halts (at TokenKind.colon q) _ _
              (λ _. guard-Halts _ _ _ _ λ _. >>=-Halts (advance q) _ (advance-IsUnder hq) λ r hr.
                >>=-Halts (parse_value fuel r) _
                  (parse_value-Halts fuel r (omega (arith, room, less, within)) hr)
                  λ (v, t) ht. returned {a = (map_entry g v, t)} (IsUnder-le (omega arith) ht))
              λ _.
                elim-Halts (at TokenKind.l_brace q) _ _
                  (λ _. guard-Halts _ _ _ _ λ _.
                    >>=-Halts (advance q) _ (advance-IsUnder hq) λ r hr.
                      >>=-Halts (parse_body fuel q.current.pos r) _
                        (parse_body-Halts fuel q.current.pos r (omega (arith, room, less, within))
                          hr)
                        λ (es, t) ht. returned {a = (block_entry g es, t)} ht)
                  λ _. failed
