-- ===== src/Pxf/Parser/Base64.antt =====
-- crates/protowire-pxf/src: `decode_base64` of parser.rs against `strict_decode_base64` of decode.rs.
use protowire_rust.Prelude.{
  ℕ, zero, suc, ◌+◌, ◌-◌, ◌*◌, ◌/◌, ◌%◌, ◌^◌, ◌≤◌, ◌<◌, List, [], ◌∷◌, ◌++◌, false, some, ◌==◌, ◌≡◌,
  refl, sym, ap, ◌∙◌, arith, length, replicate, bit_or, Option-cases, Bool-cases, inl, inr,
}
use mathlib.Core.Path.{ap₂}
use protowire_rust.Prelude.Bits.{disjoint-bit_or}
use protowire_rust.Pxf.Parser.Bytes.{
  base64_digit, decode_loop, decode_base64, strict_loop, strict_decode_base64,
}

-- The buffer of a decoder with the bits of one character more.
abbrev pub join : ℕ → ℕ → ℕ
join buf v = bit_or (buf * 2 ^ 6 % 2 ^ 32) v

pub join_eq : (buf v : ℕ) → v < 64 → join buf v ≡ buf % 2 ^ 26 * 64 + v
join_eq buf v h =
    let shifted : buf * 2 ^ 6 % 2 ^ 32 ≡ buf % 2 ^ 26 * 2 ^ 6 = omega arith in
    ap (λ t. bit_or t v) shifted ∙ disjoint-bit_or 6 (buf % 2 ^ 26) v h ∙ omega arith

base64_digit-lt : (b v : ℕ) → base64_digit b ≡ some v → v < 64
unfolding base64_digit
base64_digit-lt b v e = ground (arith, e)

-- A round of either loop, behind a character that stands for `v`.
strict_gave :
    (buf bits b v : ℕ) (s out : List ℕ)
    → base64_digit b ≡ some v
    → (b == b'=') ≡ false
    → 2 ≤ bits
    → strict_loop buf bits (b ∷ s) ≡ some out
    → (more : List ℕ) × (strict_loop (join buf v) (bits - 2) s ≡ some more)
      × (out ≡ (join buf v / 2 ^ (bits - 2) % 2 ^ 8) ∷ more)
unfolding strict_loop
strict_gave buf bits b v s out digit other h e =
    elim (Option-cases (strict_loop (join buf v) (bits - 2) s)) [
      | inl fails ↦ absurd (ground (arith, e, digit, other, h, fails))
      | inr (more, gives) ↦ (more, gives, ground (arith, e, digit, other, h, gives))
    ]

decode_gives :
    (buf bits b v : ℕ) (s : List ℕ)
    → base64_digit b ≡ some v
    → (b == b'=') ≡ false
    → 2 ≤ bits
    → decode_loop buf bits (b ∷ s)
      ≡ (join buf v / 2 ^ (bits - 2) % 2 ^ 8)
        ∷ decode_loop (join buf v % 2 ^ (bits - 2)) (bits - 2) s
unfolding decode_loop
decode_gives buf bits b v s digit other h = ground (arith, digit, other, h)

strict_waits :
    (buf b v : ℕ) (s : List ℕ)
    → base64_digit b ≡ some v
    → (b == b'=') ≡ false
    → strict_loop buf 0 (b ∷ s) ≡ strict_loop (join buf v) 6 s
unfolding strict_loop
strict_waits buf b v s digit other = ground (arith, digit, other)

decode_waits :
    (buf b v : ℕ) (s : List ℕ)
    → base64_digit b ≡ some v
    → (b == b'=') ≡ false
    → decode_loop buf 0 (b ∷ s) ≡ decode_loop (join buf v) 6 s
unfolding decode_loop
decode_waits buf b v s digit other = ground (arith, digit, other)

-- The bits that may be at hand between two characters.
data Width : ℕ → Type 0 where
  none_left : Width 0
  six_left : Width 6
  four_left : Width 4
  two_left : Width 2

-- Where both loops have the same bits at hand, and the rest of the text is read alike, so is the text
-- with a character more.
joined :
    (buf buf' bits b v : ℕ) (s out : List ℕ)
    → base64_digit b ≡ some v
    → (b == b'=') ≡ false
    → 2 ≤ bits
    → join buf v / 2 ^ (bits - 2) % 2 ^ 8 ≡ join buf' v / 2 ^ (bits - 2) % 2 ^ 8
    → ((more : List ℕ)
        → strict_loop (join buf v) (bits - 2) s ≡ some more
        → decode_loop (join buf' v % 2 ^ (bits - 2)) (bits - 2) s ≡ more)
    → strict_loop buf bits (b ∷ s) ≡ some out
    → decode_loop buf' bits (b ∷ s) ≡ out
joined buf buf' bits b v s out digit other h same rest e =
    let (more, gives, at) = strict_gave buf bits b v s out digit other h e in
    decode_gives buf' bits b v s digit other h ∙ ap₂ ◌∷◌ (sym same) (rest more gives) ∙ sym at

abbrev Alike : List ℕ → Type 0
Alike s =
    (bits : ℕ)
    → Width bits
    → (buf buf' : ℕ) (out : List ℕ) → buf % 2 ^ bits ≡ buf' % 2 ^ bits
    → strict_loop buf bits s ≡ some out
    → decode_loop buf' bits s ≡ out

round :
    {bits : ℕ} (s : List ℕ)
    → Alike s
    → Width bits
    → (buf buf' b v : ℕ) (out : List ℕ) → base64_digit b ≡ some v
    → (b == b'=') ≡ false
    → buf % 2 ^ bits ≡ buf' % 2 ^ bits
    → strict_loop buf bits (b ∷ s) ≡ some out
    → decode_loop buf' bits (b ∷ s) ≡ out
round s alike none_left buf buf' b v out digit other same e =
    let small = base64_digit-lt b v digit in
    decode_waits buf' b v s digit other
    ∙ alike 6 six_left (join buf v) (join buf' v) out
        (omega (arith, join_eq buf v small, join_eq buf' v small))
        (sym (strict_waits buf b v s digit other) ∙ e)
round s alike six_left buf buf' b v out digit other same e =
    let small = base64_digit-lt b v digit in
    let eq = join_eq buf v small in
    let eq' = join_eq buf' v small in
    joined buf buf' 6 b v s out digit other (omega arith) (omega (arith, same, eq, eq'))
      (λ more.
        alike 4 four_left (join buf v) (join buf' v % 2 ^ 4) more (omega (arith, same, eq, eq')))
      e
round s alike four_left buf buf' b v out digit other same e =
    let small = base64_digit-lt b v digit in
    let eq = join_eq buf v small in
    let eq' = join_eq buf' v small in
    joined buf buf' 4 b v s out digit other (omega arith) (omega (arith, same, eq, eq'))
      (λ more.
        alike 2 two_left (join buf v) (join buf' v % 2 ^ 2) more (omega (arith, same, eq, eq')))
      e
round s alike two_left buf buf' b v out digit other same e =
    let small = base64_digit-lt b v digit in
    let eq = join_eq buf v small in
    let eq' = join_eq buf' v small in
    joined buf buf' 2 b v s out digit other (omega arith) (omega (arith, same, eq, eq'))
      (λ more.
        alike 0 none_left (join buf v) (join buf' v % 2 ^ 0) more (omega (arith, same, eq, eq')))
      e

strict_loop-decode_loop : (s : List ℕ) → Alike s
unfolding strict_loop decode_loop
strict_loop-decode_loop [] bits w buf buf' out same e = ground (arith, e)
strict_loop-decode_loop (b ∷ s) bits w buf buf' out same e = elim (Bool-cases (b == b'=')) [
  | inl end ↦ ground (arith, e, end)
  | inr other ↦ elim (Option-cases (base64_digit b)) [
    | inl fails ↦ absurd (ground (arith, e, other, fails))
    | inr (v, digit) ↦ round s (strict_loop-decode_loop s) w buf buf' b v out digit other same e
  ]
]

-- The padding ends the text.
decode_loop-pad :
    (buf bits n : ℕ) (s : List ℕ)
    → decode_loop buf bits (s ++ replicate n b'=') ≡ decode_loop buf bits s
unfolding decode_loop
decode_loop-pad buf bits zero [] = refl
decode_loop-pad buf bits (suc n) [] = refl
decode_loop-pad buf bits n (b ∷ s) = elim (Option-cases (base64_digit b)) [
  | inl fails ↦ ground (arith, fails, decode_loop-pad buf bits n s)
  | inr (v, digit) ↦ ground (
    arith,
    digit,
    decode_loop-pad buf bits n s,
    decode_loop-pad (join buf v % 2 ^ (bits - 2)) (bits - 2) n s,
    decode_loop-pad (join buf v) (bits + 6) n s,
  )
]

-- What strict_decode_base64 decodes, decode_base64 decodes to the same bytes.
pub decode_base64-strict_decode_base64 :
    (s out : List ℕ) → strict_decode_base64 s ≡ some out → decode_base64 s ≡ out
unfolding strict_decode_base64 decode_base64
decode_base64-strict_decode_base64 s out e =
    let n = (4 - length s % 4) % 4 in
    sym (decode_loop-pad 0 0 n s)
    ∙ strict_loop-decode_loop (s ++ replicate n b'=') 0 none_left 0 0 out refl e
