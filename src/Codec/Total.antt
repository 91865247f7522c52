-- ===== src/Codec/Total.antt =====
-- Termination of the decoding loops of codec.rs, and the depth behind them. A message type is total
-- when reading one of its fields goes forward and answers.
use protowire_rust.Prelude.{
  ℕ, zero, suc, ◌+◌, ◌-◌, ◌≤◌, ◌<◌, List, Bool, true, false, ltb, length, ◌≡◌, ◌≢◌, inl, inr,
  Bool-cases, sym, ◌∙◌, subst, arith, not,
}
use protowire_rust.Wire.Types.{
  ok, stuck, WireType, ◌>>=◌, Limits, Result, ok-injective, >>=-eq-ok, >>=-eq-stuck,
}
use protowire_rust.Wire.Reader
use protowire_rust.Wire.Reader.{Reader, eof}
use protowire_rust.Wire.Bounds.{
  Forward, Forward-trans, Forward-weaken, Forward-refl, tag_bounds, varint_pair, fit_length_bounds,
}
use protowire_rust.Wire.Answers.{tag-ne-stuck, varint-ne-stuck, fit_length-ne-stuck}
use protowire_rust.Codec.{
  Message, merge_loop, merge_step, read_body, read_message, open_message, unmarshal_with,
}

pub record IsTotal {M : Type 0} (m : Message M) : Type 0 where
  pub forward :
      (num : ℕ) (wt : WireType) (msg : M) (r : Reader) (x : M × Reader)
      → r.pos ≤ length r.bytes_in
      → m.merge_field num wt msg r ≡ ok x
      → Forward 0 r x.1
  pub answers :
      (num : ℕ) (wt : WireType) (msg : M) (r : Reader)
      → r.pos ≤ length r.bytes_in
      → m.merge_field num wt msg r ≢ stuck

module _ {M : Type 0} (m : Message M) where
  abbrev pub Loop : ℕ → (Reader → Bool) → M → Reader → Result (M × Reader)
  Loop = merge_loop ⦃m = m⦄

  pub loop_stop :
      (fuel : ℕ) (more : Reader → Bool) (msg : M) (r : Reader)
      → more r ≡ false
      → Loop (suc fuel) more msg r ≡ ok (msg, r)
  unfolding merge_loop
  loop_stop fuel more msg r stop = rw (stop, merge_loop)

  pub loop_go :
      (fuel : ℕ) (more : Reader → Bool) (msg : M) (r : Reader)
      → more r ≡ true
      → Loop (suc fuel) more msg r
        ≡ (merge_step ⦃m = m⦄ msg r >>= λ (x : M × Reader). Loop fuel more x.0 x.1)
  unfolding merge_loop
  loop_go fuel more msg r go = rw (go, merge_loop)

open_message-ne-stuck : (r : Reader) → open_message r ≢ stuck
unfolding open_message
open_message-ne-stuck r e = grind (arith, varint-ne-stuck, fit_length-ne-stuck)

module _ {M : Type 0} (m : Message M) (total : IsTotal m) where
  step-Forward :
      (msg : M) (r : Reader) (x : M × Reader) → merge_step ⦃m = m⦄ msg r ≡ ok x → Forward 1 r x.1
  unfolding merge_step
  step-Forward msg r x e =
      let (t, et, k) = >>=-eq-ok (Reader.tag r) _ e in
      let f = tag_bounds r t.1 t.0.0 t.0.1 et in
      let g = total.forward t.0.0 t.0.1 msg t.1 x (ground (arith, f.same, f.within)) k in
      Forward-trans f g

  step_answers : (msg : M) (r : Reader) → merge_step ⦃m = m⦄ msg r ≢ stuck
  unfolding merge_step
  step_answers msg r e = elim (>>=-eq-stuck (Reader.tag r) _ e) [
    | inl s ↦ tag-ne-stuck r s
    | inr (t, et, k) ↦
        let f = tag_bounds r t.1 t.0.0 t.0.1 et in
        total.answers t.0.0 t.0.1 msg t.1 (ground (arith, f.same, f.within)) k
  ]

  loop-Forward :
      (fuel : ℕ) (more : Reader → Bool) (msg : M) (r : Reader) (x : M × Reader)
      → r.pos ≤ length r.bytes_in
      → Loop m fuel more msg r ≡ ok x
      → Forward 0 r x.1
  loop-Forward zero more msg r x h e = unfold merge_loop in cc
  loop-Forward (suc fuel) more msg r x h e = elim (Bool-cases (more r)) [
    | inr stop ↦
        subst (λ y. Forward 0 r y.1) (ok-injective (sym (loop_stop m fuel more msg r stop) ∙ e))
          (Forward-refl r h)
    | inl go ↦
        let (y, ey, k) =
          >>=-eq-ok (merge_step ⦃m = m⦄ msg r) _ (sym (loop_go m fuel more msg r go) ∙ e) in
        let f = step-Forward msg r y ey in
        let g = loop-Forward fuel more y.0 y.1 x (ground (arith, f.same, f.within)) k in
        Forward-weaken (Forward-trans f g)
  ]

  loop_answers :
      (fuel : ℕ) (more : Reader → Bool) (msg : M) (r : Reader)
      → r.pos ≤ length r.bytes_in
      → length r.bytes_in < r.pos + fuel
      → Loop m fuel more msg r ≢ stuck
  loop_answers zero more msg r h enough e = absurd (omega arith)
  loop_answers (suc fuel) more msg r h enough e = elim (Bool-cases (more r)) [
    | inr stop ↦ cc (loop_stop m fuel more msg r stop)
    | inl go ↦
        elim (>>=-eq-stuck (merge_step ⦃m = m⦄ msg r) _ (sym (loop_go m fuel more msg r go) ∙ e)) [
          | inl s ↦ step_answers msg r s
          | inr (y, ey, k) ↦
              let f = step-Forward msg r y ey in
              loop_answers fuel more y.0 y.1 (ground (arith, f.same, f.within))
                (ground (arith, f.same, f.moved)) k
        ]
  ]

  -- `unmarshal_with` answers with a message or an error, on every input and under any limits.
  pub unmarshal_with-ne-stuck :
      (d : List ℕ) (limits : Limits) → unmarshal_with ⦃m = m⦄ d limits ≢ stuck
  unfolding unmarshal_with
  unmarshal_with-ne-stuck d limits e = elim (Bool-cases (ltb limits.max_message_size (length d))) [
    | inl large ↦ cc (rw large at e)
    | inr fits ↦
        let start = Reader.with_limits d limits in
        elim (>>=-eq-stuck (Loop m (suc (length d)) (λ r. not (eof r)) m.default start) _
          (rw fits at e)) [
            | inl s ↦
                loop_answers (suc (length d)) (λ r. not (eof r)) m.default start (omega arith)
                  (omega arith) s
            | inr (x, ex, k) ↦ cc k
          ]
  ]

  read_body-Forward :
      (end : ℕ) (r : Reader) (x : M × Reader)
      → r.pos ≤ length r.bytes_in
      → read_body ⦃m = m⦄ end r ≡ ok x
      → Forward 0 r x.1 × (x.1.pos ≡ end)
  unfolding read_body
  read_body-Forward end r x h e =
      let (y, ey, k) =
        >>=-eq-ok (Loop m (suc (length r.bytes_in)) (λ q. ltb q.pos end) m.default r) _ e in
      let f = loop-Forward (suc (length r.bytes_in)) (λ q. ltb q.pos end) m.default r y h ey in
      ground (arith, f, k)

  -- The reader one descent down, before its end.
  abbrev IsOpened : Reader → ℕ × Reader → Type 0
  IsOpened r q =
      (q.1 ≡ record r { pos = q.1.pos; depth = r.depth + 1 })
      × (r.pos < q.1.pos)
      × (q.1.pos ≤ q.0)
      × (q.0 ≤ length r.bytes_in)
      × (r.depth < r.limits.max_nesting_depth)

  open_message_bounds : (r : Reader) (q : ℕ × Reader) → open_message r ≡ ok q → IsOpened r q
  unfolding open_message
  open_message_bounds r q e =
      let (a, ea, k) = >>=-eq-ok (Reader.varint r) _ e in
      let (n, en, k') = >>=-eq-ok (Reader.fit_length _ a.0 a.1) _ k in
      let f = varint_pair r a ea in
      let g = fit_length_bounds _ a.0 n a.1 en in ground (arith, f.same, f.moved, f.within, g, k')

  close_message :
      (r : Reader) (q : ℕ × Reader) (s : Reader)
      → IsOpened r q
      → Forward 0 q.1 s
      → Forward 1 r (record s { depth = s.depth - 1 })
  close_message r q s o f = record {
    same = ground (arith, o, f.same);
    moved = omega (arith, o, f.moved);
    within = ground (arith, o, f.same, f.within);
  }

  -- Where `read_message` returns a message of a total message type, the depth of the reader was
  -- below the nesting limit, and the reader has moved by one byte at least, is still inside its
  -- bytes, and has its bytes, depth and limits unchanged.
  pub read_message-Forward :
      (r : Reader) (x : M × Reader)
      → read_message ⦃m = m⦄ r ≡ ok x
      → Forward 1 r x.1 × (r.depth < r.limits.max_nesting_depth)
  unfolding read_message
  read_message-Forward r x e =
      let (q, eq, k) = >>=-eq-ok (open_message r) _ e in
      let (y, ey, k') = >>=-eq-ok (read_body ⦃m = m⦄ q.0 q.1) _ k in
      let o = open_message_bounds r q eq in
      let (f, _) = read_body-Forward q.0 q.1 y (ground (arith, o)) ey in
      (subst (λ z. Forward 1 r z.1) (ok-injective k') (close_message r q y.1 o f), omega (arith, o))

  -- Reading a nested message of a total message type ends with a result or an error, on every
  -- reader.
  pub read_message-ne-stuck : (r : Reader) → read_message ⦃m = m⦄ r ≢ stuck
  unfolding read_message read_body
  read_message-ne-stuck r e = elim (>>=-eq-stuck (open_message r) _ e) [
    | inl s ↦ open_message-ne-stuck r s
    | inr (q, eq, k) ↦ elim (>>=-eq-stuck (read_body ⦃m = m⦄ q.0 q.1) _ k) [
      | inr (y, ey, k') ↦ cc k'
      | inl s ↦
          elim (>>=-eq-stuck (Loop m (suc (length q.1.bytes_in)) (λ p. ltb p.pos q.0) m.default q.1)
            _ s) [
              | inl s' ↦
                  let o = open_message_bounds r q eq in
                  loop_answers (suc (length q.1.bytes_in)) (λ p. ltb p.pos q.0) m.default q.1
                    (ground (arith, o)) (omega arith) s'
              | inr (y, ey, k') ↦ ground (arith, k')
            ]
    ]
  ]
