-- ===== src/Codec/Runs.antt =====
-- How the decoding loops of codec.rs read the fields that stand ahead: the rounds as a relation,
-- its composition along the bytes, and what `unmarshal_with` and `read_message` make of it.
use protowire_rust.Prelude.{
  ℕ, zero, suc, ◌+◌, ◌≤◌, ◌<◌, ◌^◌, List, [], ◌++◌, Bool, true, false, ltb, length, not, drop, ◌≡◌,
  refl, sym, ap, ◌∙◌, arith, append_assoc, append-nil, length-append, le→ltb, lt→ltb,
}
use protowire_rust.Wire.Types.{ok, WireType, Limits}
use protowire_rust.Wire.Reader.{Reader, eof}
use protowire_rust.Wire.Bounds.{Forward}
use protowire_rust.Wire.Varint.{varint_bytes, varint_reads}
use protowire_rust.Wire.Numbers.{tag_bytes, tag_reads, IsFieldNumber, one-le-length-tag_bytes}
use protowire_rust.Wire.Fields.{
  delimited, length-delimited, drop_past, front_fits, prefix_ahead, whole_fits, fit_length_fits,
}
use protowire_rust.Codec.{
  Message, merge_loop, merge_step, read_message, open_message, unmarshal_with,
}
use native.Mathlib.Nat.{add-zero}
use protowire_rust.Codec.Total.{loop_stop, loop_go}

-- Rounds of the loop from a message and a reader to others, each of a byte at least.
pub data Runs {M : Type 0} (m : Message M) (t : M × Reader) : M × Reader → Type 0 where
  done : Runs m t t
  round :
      {s u : M × Reader}
      → merge_step ⦃m = m⦄ s.0 s.1 ≡ ok u
      → Forward 1 s.1 u.1
      → Runs m t u
      → Runs m t s

module _ {M : Type 0} {m : Message M} where
  pub Runs-trans : {u t s : M × Reader} → Runs m u t → Runs m t s → Runs m u s
  Runs-trans r done = r
  Runs-trans r (round e f q) = round e f (Runs-trans r q)

  Runs-le : {t s : M × Reader} → Runs m t s → s.1.pos ≤ t.1.pos
  Runs-le done = omega arith
  Runs-le (round e f q) = omega (arith, f.moved, Runs-le q)

  -- The loop takes these rounds, when its test holds before their end and fails there.
  loop-Runs :
      (t s : M × Reader) (fuel : ℕ) (more : Reader → Bool)
      → Runs m t s
      → ((q : Reader) → q.bytes_in ≡ s.1.bytes_in → q.pos < t.1.pos → more q ≡ true)
      → more t.1 ≡ false
      → t.1.pos < s.1.pos + fuel
      → merge_loop ⦃m = m⦄ fuel more s.0 s.1 ≡ ok t
  loop-Runs t s zero more r go stop enough = absurd (omega (arith, Runs-le r))
  loop-Runs t s (suc fuel) more done go stop enough = loop_stop m fuel more s.0 s.1 stop
  loop-Runs t s (suc fuel) more (round {u = u} e f q) go stop enough =
      loop_go m fuel more s.0 s.1 (go s.1 refl (omega (arith, f.moved, Runs-le q)))
      ∙ rw e (
          loop-Runs t u fuel more q
            (λ p same lt. go p (same ∙ ap (λ (x : Reader). x.bytes_in) f.same) lt) stop
            (omega (arith, f.moved)))

-- Readers that differ in their position only.
module _ (d : List ℕ) (depth : ℕ) (limits : Limits) where
  abbrev pub at_pos : ℕ → Reader
  at_pos p = record { bytes_in = d; pos = p; depth = depth; limits = limits }

  -- Wherever the bytes `bs` stand, reading them takes the message `a` to `b`.
  abbrev pub Decodes : {M : Type 0} → Message M → List ℕ → M → M → Type 0
  Decodes m bs a b =
      (p : ℕ) (rest : List ℕ)
      → drop p d ≡ bs ++ rest
      → Runs m (b, at_pos (p + length bs)) (a, at_pos p)

  pub Decodes-nil : {M : Type 0} {m : Message M} (a : M) → Decodes m [] a a
  Decodes-nil a p rest ahead = rw add-zero done

  pub Decodes-append :
      {M : Type 0} {m : Message M} (xs ys : List ℕ) (a b c : M)
      → Decodes m xs a b
      → Decodes m ys b c
      → Decodes m (xs ++ ys) a c
  Decodes-append xs ys a b c f g p rest ahead =
      let ahead' = ahead ∙ append_assoc xs ys rest in
      let e : p + length (xs ++ ys) ≡ p + length xs + length ys =
        omega (arith, length-append xs ys) in
      rw e (
        Runs-trans (g (p + length xs) rest (drop_past d xs (ys ++ rest) p ahead'))
          (f p (ys ++ rest) ahead'))

  -- A field: its tag, and a body that `merge_field` reads.
  pub Decodes-field :
      {M : Type 0} (m : Message M) (n : ℕ) (wt : WireType) (body : List ℕ) (a b : M)
      → IsFieldNumber n
      → ((p : ℕ) (rest : List ℕ)
          → drop p d ≡ body ++ rest
          → m.merge_field n wt a (at_pos p) ≡ ok (b, at_pos (p + length body)))
      → Decodes m (tag_bytes n wt ++ body) a b
  Decodes-field m n wt body a b num merge p rest ahead =
      let tag = tag_bytes n wt in
      let ahead' = ahead ∙ append_assoc tag body rest in
      let e : p + length (tag ++ body) ≡ p + length tag + length body =
        omega (arith, length-append tag body) in
      let fits =
        front_fits d (tag ++ body) rest p ahead
          (omega (arith, length-append tag body, one-le-length-tag_bytes n wt)) in
      let step : merge_step ⦃m = m⦄ a (at_pos p) ≡ ok (b, at_pos (p + length (tag ++ body))) =
        unfold merge_step in
        rw (e, tag_reads n wt (at_pos p) (body ++ rest) num ahead')
          (merge (p + length tag) rest (drop_past d tag (body ++ rest) p ahead')) in
      round {s = (a, at_pos p)} {u = (b, at_pos (p + length (tag ++ body)))} step
        (record {
          same = refl;
          moved = omega (arith, length-append tag body, one-le-length-tag_bytes n wt);
          within = fits;
        })
        done

  loop-Decodes :
      {M : Type 0} (m : Message M) (bs : List ℕ) (a b : M) (p : ℕ) (rest : List ℕ) (fuel : ℕ)
      (more : Reader → Bool)
      → Decodes m bs a b
      → drop p d ≡ bs ++ rest
      → ((q : Reader) → q.bytes_in ≡ d → q.pos < p + length bs → more q ≡ true)
      → more (at_pos (p + length bs)) ≡ false
      → length bs < fuel
      → merge_loop ⦃m = m⦄ fuel more a (at_pos p) ≡ ok (b, at_pos (p + length bs))
  loop-Decodes m bs a b p rest fuel more f ahead go stop enough =
      loop-Runs (b, at_pos (p + length bs)) (a, at_pos p) fuel more (f p rest ahead) go stop
        (omega arith)

-- A whole input that decodes is what `unmarshal_with` returns, when its size is allowed.
pub unmarshal_with-Decodes :
    {M : Type 0} (m : Message M) (d : List ℕ) (limits : Limits) (v : M)
    → Decodes d 0 limits m d m.default v
    → length d ≤ limits.max_message_size
    → unmarshal_with ⦃m = m⦄ d limits ≡ ok v
unfolding unmarshal_with
unmarshal_with-Decodes m d limits v f size = rw (
  le→ltb limits.max_message_size (length d) size,
  loop-Decodes d 0 limits m d m.default v 0 [] (suc (length d)) (λ q. not (eof q)) f
      (sym (append-nil d)) (λ q same lt. rw same (ground arith)) (ground arith) (omega arith),
)

module _ (d : List ℕ) (depth : ℕ) (limits : Limits) (bs : List ℕ) (p : ℕ) (rest : List ℕ)
    (small : length d < 2 ^ 64) (ahead : drop p d ≡ delimited bs ++ rest) where
  abbrev start : ℕ
  start = p + length (varint_bytes (length bs))

  end_eq : start + length bs ≡ p + length (delimited bs)
  end_eq = omega (arith, length-delimited bs)

  open_message_reads :
      depth < limits.max_nesting_depth
      → open_message (at_pos d depth limits p)
        ≡ ok (start + length bs, at_pos d (depth + 1) limits start)
  unfolding open_message
  open_message_reads deep =
      let fits = whole_fits bs (at_pos d depth limits p) rest small ahead in
      rw
        (
          varint_reads (length bs) (at_pos d depth limits p) (bs ++ rest) (omega (arith, fits))
              (prefix_ahead bs (at_pos d depth limits p) rest small ahead),
          fit_length_fits _ (length bs) (at_pos d depth limits start) small fits,
        )
        (ground arith)

  -- A nested message that decodes one descent down is what `read_message` returns.
  pub read_message-Decodes :
      {M : Type 0} (m : Message M) (v : M)
      → Decodes d (depth + 1) limits m bs m.default v
      → depth < limits.max_nesting_depth
      → read_message ⦃m = m⦄ (at_pos d depth limits p)
        ≡ ok (v, at_pos d depth limits (p + length (delimited bs)))
  unfolding read_message
  read_message-Decodes m v f deep =
      let body = prefix_ahead bs (at_pos d depth limits p) rest small ahead in
      let inside = drop_past d (varint_bytes (length bs)) (bs ++ rest) p body in
      let fits = whole_fits bs (at_pos d depth limits p) rest small ahead in
      rw
        (
          open_message_reads deep,
          loop-Decodes d (depth + 1) limits m bs m.default v start rest (suc (length d))
              (λ q. ltb q.pos (start + length bs)) f inside (λ q same lt. lt→ltb _ _ lt)
              (ground arith) (omega (arith, fits)),
        )
        (ground (arith, end_eq))
