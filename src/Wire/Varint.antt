-- ===== src/Wire/Varint.antt =====
-- The varint of wire.rs: what `Writer::varint` writes, in plain arithmetic, and what
-- `Reader::varint` reads back.
use protowire_rust.Prelude.{
  ℕ, zero, suc, ◌+◌, ◌*◌, ◌/◌, ◌%◌, ◌^◌, ◌≤◌, ◌<◌, bit_and, bit_or, List, [], ◌∷◌, ◌++◌, ltb,
  if◌then◌else◌, length, drop, Bool-cases, inl, inr, lt→ltb, le→ltb, ltb→lt, ltb→le, drop_cons,
  append_assoc, ◌≡◌, ◌≢◌, ap, arith,
}
use protowire_rust.Prelude.Bits.{bit_and_mask, bit_or_disjoint, bit_and_top}
use protowire_rust.Prelude.Order.{lt_wf}
use protowire_rust.Wire.Types.{ok}
use protowire_rust.Wire.Writer
use protowire_rust.Wire.Writer.{Writer}
use protowire_rust.Wire.Reader
use protowire_rust.Wire.Reader.{Reader}
use mathlib.Core.WellFounded.{Acc}
use native.Mathlib.Nat.{div-add-mod}
use native.Mathlib.Numerals.{towards_suc}

-- The groups of seven bits of a number below 128 ^ (k + 1), lowest first, with 128 added to all
-- but the last.
unfoldable pub groups : ℕ → ℕ → List ℕ
groups zero v = v ∷ []
groups (suc k) v =
    let rest = groups k (v / 128) in if ltb v 128 then v ∷ [] else (v % 128 + 128) ∷ rest

-- The bytes of a u64.
unfoldable pub varint_bytes : ℕ → List ℕ
unfolding groups
varint_bytes v = groups 9 v

continued : (v : ℕ) → bit_or (bit_and v 0x7f) 0x80 ≡ v % 128 + 128
continued v = rw (bit_and_mask 7 v) (omega (arith, bit_or_disjoint 7 (v % 128) 1 (omega arith)))

loop-groups :
    (k : ℕ) (buf : List ℕ) (v : ℕ) (w : Acc ◌<◌ v)
    → v < 128 ^ suc k
    → Writer.varint_loop buf v w ≡ buf ++ groups k v
unfolding Writer.varint_loop groups
loop-groups zero buf v (Acc.intro _ smaller) h = ground arith
loop-groups (suc k) buf v (Acc.intro _ smaller) h = grind (
  arith,
  continued v,
  λ (w : Acc ◌<◌ (v / 128)).
      loop-groups k (buf ++ ((v % 128 + 128) ∷ [])) (v / 128) w (omega arith),
  append_assoc buf ((v % 128 + 128) ∷ []) (groups k (v / 128)),
)

-- `Writer::varint` appends the groups of any u64, and changes nothing else.
pub varint-groups :
    (v : ℕ) (w : Writer)
    → v < 2 ^ 64
    → Writer.varint v w ≡ record w { buf = w.buf ++ varint_bytes v }
unfolding Writer.varint varint_bytes
varint-groups v w h =
    ap (λ b. record w { buf = b }) (loop-groups 9 w.buf v (lt_wf.apply v) (omega arith))

length-groups : (k v : ℕ) → (1 ≤ length (groups k v)) × (length (groups k v) ≤ k + 1)
unfolding groups
length-groups zero v = omega arith
length-groups (suc k) v = ground (arith, length-groups k (v / 128))

pub length-varint_bytes : (v : ℕ) → (1 ≤ length (varint_bytes v)) × (length (varint_bytes v) ≤ 10)
unfolding varint_bytes
length-varint_bytes v = length-groups 9 v

-- One round of the reader's loop, on a last byte and on a byte with its top bit set.
module _ (r : Reader) (rounds result shift : ℕ) (rest : List ℕ) (low : result < 2 ^ shift) where
  last_byte :
      (b : ℕ)
      → b < 128
      → result + b * 2 ^ shift < 2 ^ 64
      → drop r.pos r.bytes_in ≡ b ∷ rest
      → Reader.varint_loop (suc rounds) result shift r
        ≡ ok (result + b * 2 ^ shift, record r { pos = r.pos + 1 })
  unfolding Reader.varint_loop
  last_byte b hb fits ahead = ground (
    arith,
    drop_cons r.bytes_in r.pos b 0 rest,
    bit_and_mask 7 b,
    bit_and_top b,
    bit_or_disjoint shift result b low,
  )

  inner_byte :
      (g : ℕ)
      → g < 128
      → rounds ≢ 0
      → result + g * 2 ^ shift < 2 ^ 64
      → drop r.pos r.bytes_in ≡ (g + 128) ∷ rest
      → Reader.varint_loop (suc rounds) result shift r
        ≡ Reader.varint_loop rounds
            (result + g * 2 ^ shift)
            (shift + 7)
            (record r { pos = r.pos + 1 })
  unfolding Reader.varint_loop
  inner_byte g hg more fits ahead = ground (
    arith,
    drop_cons r.bytes_in r.pos (g + 128) 0 rest,
    bit_and_mask 7 (g + 128),
    bit_and_top (g + 128),
    bit_or_disjoint shift result g low,
  )

group_width : (n : ℕ) → 2 ^ (n + 7) ≡ 2 ^ n * 128
group_width n = simp towards_suc (omega arith)

-- The lowest group of `w` and what is above it, both shifted by `n`.
split_group : (w n : ℕ) → w * 2 ^ n ≡ w % 128 * 2 ^ n + w / 128 * 2 ^ (n + 7)
split_group w n =
    let digits = ap (λ (v : ℕ). v * 2 ^ n) (div-add-mod w 128) in
    omega (arith, digits, ap (λ (v : ℕ). w / 128 * v) (group_width n))

group-lt : (g result s : ℕ) → g < 128 → result < 2 ^ s → result + g * 2 ^ s < 2 ^ (s + 7)
group-lt g result s hg hr = ground (arith, group_width s, grind_mul g (2 ^ s) hg)
  where
    grind_mul : (g p : ℕ) → g < 128 → g * p + p ≤ 128 * p
    grind_mul g p h = grind arith

groups_last : (k w : ℕ) → w < 128 → groups (suc k) w ≡ w ∷ []
unfolding groups
groups_last k w h = rw (lt→ltb w 128 h)

groups_more : (k w : ℕ) → 128 ≤ w → groups (suc k) w ≡ (w % 128 + 128) ∷ groups k (w / 128)
unfolding groups
groups_more k w h = rw (le→ltb w 128 h)

-- `w` is what is still to be read, and it counts from bit `shift` on.
loop_reads :
    (k w result shift : ℕ) (r : Reader) (rest : List ℕ)
    → w < 128 ^ suc k
    → result < 2 ^ shift
    → result + w * 2 ^ shift < 2 ^ 64
    → drop r.pos r.bytes_in ≡ groups k w ++ rest
    → Reader.varint_loop (suc k) result shift r
      ≡ ok (result + w * 2 ^ shift, record r { pos = r.pos + length (groups k w) })
loop_reads zero w result shift r rest hw low fits ahead =
    unfold groups in last_byte r 0 result shift rest low w (omega arith) fits ahead
loop_reads (suc k) w result shift r rest hw low fits ahead = elim (Bool-cases (ltb w 128)) [
  | inl small ↦
      let e = groups_last k w (ltb→lt w 128 small) in
      rw e (last_byte r (suc k) result shift rest low w (ltb→lt w 128 small) fits (rw e at ahead))
  | inr large ↦
      let h = ltb→le w 128 large in
      let here = rw (groups_more k w h) at ahead in
      let tail =
        (drop_cons r.bytes_in r.pos (w % 128 + 128) 0 (groups k (w / 128) ++ rest) here).2 in
      rw (groups_more k w h) (
        ground (
          arith,
          inner_byte r (suc k) result shift (groups k (w / 128) ++ rest) low (w % 128),
          loop_reads k (w / 128) (result + w % 128 * 2 ^ shift) (shift + 7)
              (record r { pos = r.pos + 1 }) rest (omega arith)
              (group-lt (w % 128) result shift (omega arith) low)
              (omega (arith, split_group w shift)) tail,
          split_group w shift,
        ))
]

-- `Reader::varint` reads back any u64 at the groups of it, and stops behind them.
pub varint_reads :
    (v : ℕ) (r : Reader) (rest : List ℕ)
    → v < 2 ^ 64
    → drop r.pos r.bytes_in ≡ varint_bytes v ++ rest
    → Reader.varint r ≡ ok (v, record r { pos = r.pos + length (varint_bytes v) })
unfolding varint_bytes Reader.varint
varint_reads v r rest h ahead =
    rw (loop_reads 9 v 0 0 r rest (omega arith) (omega arith) (omega arith) ahead) (ground arith)
