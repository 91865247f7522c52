-- ===== src/Pxf/Parser/Nesting.antt =====
-- crates/protowire-pxf/src/parser.rs: how deep the values and entries that are read nest, and where
-- type entries and map entries stand in them.
use protowire_rust.Prelude.{
  ℕ, zero, suc, ◌+◌, ◌≤◌, Bool, true, false, ◌≡◌, refl, arith, inl, inr, some, Option-cases,
}
use Prim.Native.Nat.{max}
use protowire_rust.Pxf.Token.{Position, Token, TokenKind}
use protowire_rust.Pxf.Ast.{
  Value, Values, Entry, Entries, nil, cons, end, entry, assignment, map_entry, block_entry,
  type_entry, string, int, float, bool, bytes, null, ident, timestamp, duration, list, block,
}
use protowire_rust.Pxf.Parser.Values.{
  scalar, parse_type_entry, entry_head, close_list, close_body, parse_value, parse_list, list_loop,
  parse_block_val, parse_body, body_loop, parse_entry, take_comma,
}
use protowire_rust.Pxf.Parser.State.{Parser, at, kind, enter, advance, flush_comments}
use protowire_rust.Pxf.Parser.Ensures.{
  Ensures, ensured, failed, ran_out, guard-Ensures, elim-Ensures, >>=-Ensures, Keeps, Keeps-refl,
  Keeps-trans, advance-Keeps, IsEntered, enter-IsEntered, leave-Keeps,
}

-- How deep lists and blocks are nested.
abbrev mutual
  pub height : Value → ℕ
  height (string v) = 0
  height (int v) = 0
  height (float v) = 0
  height (bool v) = 0
  height (bytes v) = 0
  height (null v) = 0
  height (ident v) = 0
  height (timestamp v) = 0
  height (duration v) = 0
  height (list pos vs) = suc (values_height vs)
  height (block pos es) = suc (entries_height es)

  pub values_height : Values → ℕ
  values_height nil = 0
  values_height (cons v vs) = max (height v) (values_height vs)

  pub entry_height : Entry → ℕ
  entry_height (assignment h v) = height v
  entry_height (map_entry h v) = height v
  entry_height (block_entry h es) = suc (entries_height es)
  entry_height (type_entry t) = 0

  pub entries_height : Entries → ℕ
  entries_height end = 0
  entries_height (entry e es) = max (entry_height e) (entries_height es)

-- A type entry stands first in a body, if anywhere. Map entries stand where `allow` says.
abbrev mutual
  pub IsWell : Value → Type 0
  IsWell (string v) = Unit {0}
  IsWell (int v) = Unit {0}
  IsWell (float v) = Unit {0}
  IsWell (bool v) = Unit {0}
  IsWell (bytes v) = Unit {0}
  IsWell (null v) = Unit {0}
  IsWell (ident v) = Unit {0}
  IsWell (timestamp v) = Unit {0}
  IsWell (duration v) = Unit {0}
  IsWell (list pos vs) = AreWell vs
  IsWell (block pos es) = IsBody true true es

  pub AreWell : Values → Type 0
  AreWell nil = Unit {0}
  AreWell (cons v vs) = IsWell v × AreWell vs

  pub IsEntry : Bool → Bool → Entry → Type 0
  IsEntry allow first (assignment h v) = IsWell v
  IsEntry allow first (map_entry h v) = (allow ≡ true) × IsWell v
  IsEntry allow first (block_entry h es) = IsBody true true es
  IsEntry allow first (type_entry t) = first ≡ true

  pub IsBody : Bool → Bool → Entries → Type 0
  IsBody allow first end = Unit {0}
  IsBody allow first (entry e es) = IsEntry allow first e × IsBody allow false es

-- What a method ensures of the value that it reads and of the parser behind it.
pub record Reads {A : Type 0} (depth_of : A → ℕ) (Good : A → Type 0) (p : Parser) (r : A × Parser)
    : Type 0 where
  pub nested : depth_of r.0 + p.depth ≤ p.limits.max_nesting_depth
  pub good : Good r.0
  pub keeps : Keeps p r.1

abbrev pub IsLow : Parser → Type 0
IsLow p = p.depth ≤ p.limits.max_nesting_depth

scalar-Reads :
    (k : TokenKind) (t : Token) (v : Value) → scalar k t ≡ some v → (height v ≡ 0) × IsWell v
unfolding scalar
scalar-Reads TokenKind.string t v e = ground arith
scalar-Reads _ t v e = ground arith

parse_type_entry-Reads :
    (first : Bool) (p : Parser)
    → IsLow p
    → Ensures (Reads entry_height (IsEntry true first) p) (parse_type_entry first p)
unfolding parse_type_entry
parse_type_entry-Reads first p low = guard-Ensures first _ _ _ λ opens.
    >>=-Ensures (advance (flush_comments p)) _
      (advance-Keeps {p = p} {q = flush_comments p} (record { depth = refl; limit = refl }))
      λ q hq. guard-Ensures (at TokenKind.equals q) _ _ _ λ _.
        >>=-Ensures (advance q) _ (advance-Keeps hq) λ r hr.
          guard-Ensures (at TokenKind.string r) _ _ _ λ _.
            >>=-Ensures (advance r) _ (advance-Keeps hr)
              λ s hs. ensured (record { nested = omega (arith, low); good = opens; keeps = hs })

entry_head-Keeps : (p : Parser) → Ensures (λ r. Keeps p r.2) (entry_head p)
unfolding entry_head
entry_head-Keeps p = guard-Ensures _ _ _ _ λ _. guard-Ensures _ _ _ _ λ _.
    >>=-Ensures (advance (flush_comments p)) _
      (advance-Keeps {p = p} {q = flush_comments p} (record { depth = refl; limit = refl }))
      λ q hq. ensured hq

close_list-Keeps : {p q r : Parser} → IsEntered p q → Keeps q r → Ensures (Keeps p) (close_list r)
unfolding close_list
close_list-Keeps {p} {q} {r} e h =
    guard-Ensures _ _ _ _
      λ _. >>=-Ensures (advance r) _ (advance-Keeps h) λ s hs. ensured (leave-Keeps e hs)

close_body-Keeps : {p q r : Parser} → IsEntered p q → Keeps q r → Ensures (Keeps p) (close_body r)
unfolding close_body
close_body-Keeps {p} {q} {r} e h =
    guard-Ensures _ _ _ _
      λ _. >>=-Ensures (advance r) _ (advance-Keeps h) λ s hs. ensured (leave-Keeps e hs)

take_comma-Keeps : {p q : Parser} → Keeps p q → Ensures (Keeps p) (take_comma q)
take_comma-Keeps {p} {q} h =
    elim-Ensures (at TokenKind.comma q) _ _ (λ _. advance-Keeps h) (λ _. ensured h)

mutual
  unfolding parse_value parse_list list_loop parse_block_val parse_body body_loop parse_entry

  pub parse_value-Reads :
      (fuel : ℕ) (p : Parser) → IsLow p → Ensures (Reads height IsWell p) (parse_value fuel p)
  parse_value-Reads zero p low = ran_out
  parse_value-Reads (suc fuel) p low = elim (Option-cases (scalar (kind p) p.current)) [
    | inr (v, e) ↦
        let (flat, well) = scalar-Reads (kind p) p.current v e in
        rw (e, parse_value)
          (>>=-Ensures (advance p) _ (advance-Keeps (Keeps-refl p)) λ q hq.
            ensured {a = (v, q)} (record { nested = omega (arith, flat); good = well; keeps = hq }))
    | inl e ↦
        rw (e, parse_value)
          (elim-Ensures (at TokenKind.l_bracket p) _ _ (λ _. parse_list-Reads fuel p low)
            λ _.
              elim-Ensures (at TokenKind.l_brace p) _ _ (λ _. parse_block_val-Reads fuel p low)
                λ _. failed)
  ]

  parse_list-Reads :
      (fuel : ℕ) (p : Parser) → IsLow p → Ensures (Reads height IsWell p) (parse_list fuel p)
  parse_list-Reads zero p low = ran_out
  parse_list-Reads (suc fuel) p low =
      >>=-Ensures (enter p.current.pos p) _ (enter-IsEntered p.current.pos p) λ entered e.
        >>=-Ensures (advance entered) _ (advance-Keeps (Keeps-refl entered)) λ q hq.
          >>=-Ensures (list_loop fuel q) _
            (list_loop-Reads fuel q (omega (arith, e.depth, e.limit, e.room, hq.depth, hq.limit)))
            λ (vs, r) hr.
              >>=-Ensures (close_list r) _ (close_list-Keeps e (Keeps-trans hq hr.keeps)) λ s hs.
                ensured {a = (list p.current.pos vs, s)} (record {
                  nested = omega (arith, e.depth, e.limit, hq.depth, hq.limit, hr.nested);
                  good = hr.good;
                  keeps = hs;
                })

  list_loop-Reads :
      (fuel : ℕ) (p : Parser) → IsLow p → Ensures (Reads values_height AreWell p) (list_loop fuel p)
  list_loop-Reads zero p low = ran_out
  list_loop-Reads (suc fuel) p low =
      elim-Ensures _ _ _
        (λ _.
          ensured {a = (nil, p)}
            (record { nested = omega (arith, low); good = tt; keeps = Keeps-refl p }))
        λ _. >>=-Ensures (parse_value fuel p) _ (parse_value-Reads fuel p low) λ (v, q) hv.
          >>=-Ensures (take_comma q) _ (take_comma-Keeps hv.keeps) λ r hr.
            >>=-Ensures (list_loop fuel r) _
              (list_loop-Reads fuel r (omega (arith, low, hr.depth, hr.limit)))
              λ (vs, s) hs. ensured {a = (cons v vs, s)} (record {
                nested = omega (arith, hv.nested, hs.nested, hr.depth, hr.limit);
                good = (hv.good, hs.good);
                keeps = Keeps-trans hr hs.keeps;
              })

  pub parse_block_val-Reads :
      (fuel : ℕ) (p : Parser) → IsLow p → Ensures (Reads height IsWell p) (parse_block_val fuel p)
  parse_block_val-Reads zero p low = ran_out
  parse_block_val-Reads (suc fuel) p low =
      >>=-Ensures (advance p) _ (advance-Keeps (Keeps-refl p)) λ q hq.
        >>=-Ensures (parse_body fuel p.current.pos q) _
          (parse_body-Reads fuel p.current.pos q (omega (arith, low, hq.depth, hq.limit)))
          λ (es, r) hr. ensured {a = (block p.current.pos es, r)} (record {
            nested = omega (arith, hr.nested, hq.depth, hq.limit);
            good = hr.good;
            keeps = Keeps-trans hq hr.keeps;
          })

  parse_body-Reads :
      (fuel : ℕ) (pos : Position) (p : Parser)
      → IsLow p
      → Ensures (Reads (λ es. suc (entries_height es)) (IsBody true true) p) (parse_body fuel pos p)
  parse_body-Reads zero pos p low = ran_out
  parse_body-Reads (suc fuel) pos p low =
      >>=-Ensures (enter pos p) _ (enter-IsEntered pos p) λ entered e.
        >>=-Ensures (body_loop fuel true entered) _
          (body_loop-Reads fuel true entered (omega (arith, e.depth, e.limit, e.room)))
          λ (es, q) hq. >>=-Ensures (close_body q) _ (close_body-Keeps e hq.keeps) λ r hr.
            ensured {a = (es, r)} (record {
              nested = omega (arith, e.depth, e.limit, hq.nested);
              good = hq.good;
              keeps = hr;
            })

  body_loop-Reads :
      (fuel : ℕ) (first : Bool) (p : Parser)
      → IsLow p
      → Ensures (Reads entries_height (IsBody true first) p) (body_loop fuel first p)
  body_loop-Reads zero first p low = ran_out
  body_loop-Reads (suc fuel) first p low =
      elim-Ensures _ _ _
        (λ _.
          ensured {a = (end, p)}
            (record { nested = omega (arith, low); good = tt; keeps = Keeps-refl p }))
        λ _.
          >>=-Ensures {Q = Reads entry_height (IsEntry true first) p}
            (elim (at TokenKind.at_type p) [
              | true ↦ parse_type_entry first p
              | false ↦ parse_entry fuel true p
            ])
            _
            (elim-Ensures (at TokenKind.at_type p) _ _ (λ _. parse_type_entry-Reads first p low)
              (λ _. parse_entry-Reads fuel true first p low))
            λ (x, q) hx.
              >>=-Ensures (body_loop fuel false q) _
                (body_loop-Reads fuel false q (omega (arith, low, hx.keeps.depth, hx.keeps.limit)))
                λ (es, r) hr. ensured {a = (entry x es, r)} (record {
                  nested = omega (arith, hx.nested, hr.nested, hx.keeps.depth, hx.keeps.limit);
                  good = (hx.good, hr.good);
                  keeps = Keeps-trans hx.keeps hr.keeps;
                })

  pub parse_entry-Reads :
      (fuel : ℕ) (allow first : Bool) (p : Parser)
      → IsLow p
      → Ensures (Reads entry_height (IsEntry allow first) p) (parse_entry fuel allow p)
  parse_entry-Reads zero allow first p low = ran_out
  parse_entry-Reads (suc fuel) allow first p low =
      >>=-Ensures (entry_head p) _ (entry_head-Keeps p) λ (k, h, q) hq.
        elim-Ensures (at TokenKind.equals q) _ _
          (λ _. guard-Ensures _ _ _ _ λ _. >>=-Ensures (advance q) _ (advance-Keeps hq) λ r hr.
            >>=-Ensures (parse_value fuel r) _
              (parse_value-Reads fuel r (omega (arith, low, hr.depth, hr.limit)))
              λ (v, s) hs. ensured {a = (assignment h v, s)} (record {
                nested = omega (arith, hs.nested, hr.depth, hr.limit);
                good = hs.good;
                keeps = Keeps-trans hr hs.keeps;
              }))
          λ _.
            elim-Ensures (at TokenKind.colon q) _ _
              (λ _. guard-Ensures _ _ _ _ λ allowed.
                >>=-Ensures (advance q) _ (advance-Keeps hq) λ r hr.
                  >>=-Ensures (parse_value fuel r) _
                    (parse_value-Reads fuel r (omega (arith, low, hr.depth, hr.limit)))
                    λ (v, s) hs. ensured {a = (map_entry h v, s)} (record {
                      nested = omega (arith, hs.nested, hr.depth, hr.limit);
                      good = (allowed, hs.good);
                      keeps = Keeps-trans hr hs.keeps;
                    }))
              λ _.
                elim-Ensures (at TokenKind.l_brace q) _ _
                  (λ _. guard-Ensures _ _ _ _ λ _.
                    >>=-Ensures (advance q) _ (advance-Keeps hq) λ r hr.
                      >>=-Ensures (parse_body fuel q.current.pos r) _
                        (parse_body-Reads fuel q.current.pos r
                          (omega (arith, low, hr.depth, hr.limit)))
                        λ (es, s) hs. ensured {a = (block_entry h es, s)} (record {
                          nested = omega (arith, hs.nested, hr.depth, hr.limit);
                          good = hs.good;
                          keeps = Keeps-trans hr hs.keeps;
                        }))
                  λ _. failed
