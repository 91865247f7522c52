-- ===== src/Pxf/Format/Base64.antt =====
-- crates/protowire-pxf/src: `encode_base64` of format.rs against `decode_base64` of parser.rs and
-- `strict_decode_base64` of decode.rs.
use protowire_rust.Prelude.{
  ℕ, zero, suc, ◌+◌, ◌-◌, ◌*◌, ◌/◌, ◌%◌, ◌^◌, ◌≤◌, ◌<◌, List, [], ◌∷◌, Bool, true, false, not, ◌&&◌,
  Option, none, some, ◌==◌, ◌≡◌, refl, ap, ◌∙◌, arith, length, get_or, bit_or, bit_and, All,
  append-nil, codes, Bool-cases, inl, inr,
}
use protowire_rust.Prelude.Bits.{bit_and_mask, disjoint-bit_or}
use protowire_rust.Pxf.Parser.Bytes.{base64_digit, decode_base64, strict_loop, strict_decode_base64}
use protowire_rust.Pxf.Parser.Base64.{join, join_eq, decode_base64-strict_decode_base64}
use protowire_rust.Pxf.Format.{alphabet, digit_at, encode_base64}

-- Each of the 64 characters stands for its place.
abbrev stands_for : Option ℕ → ℕ → Bool
stands_for none i = false
stands_for (some v) i = v == i

abbrev pub every : (ℕ → Bool) → ℕ → Bool
every p zero = true
every p (suc n) = p n && every p n

pub every-true : (p : ℕ → Bool) (n i : ℕ) → every p n ≡ true → i < n → p i ≡ true
every-true p zero i e h = absurd (omega arith)
every-true p (suc n) i e h = elim (Bool-cases (i == n)) [
  | inl same ↦ ground (arith, e, same)
  | inr other ↦ every-true p n i (ground (arith, e)) (ground (arith, h, other))
]

abbrev reads_back : ℕ → Bool
unfolding base64_digit
reads_back i =
    stands_for (base64_digit (get_or alphabet i 0)) i && not (get_or alphabet i 0 == b'=')

all_read_back : every reads_back 64 ≡ true
unfolding reads_back
all_read_back = refl

pub digit_value : (k n : ℕ) → bit_and (n / 2 ^ k) 0x3f ≡ n / 2 ^ k % 64
digit_value k n = bit_and_mask 6 (n / 2 ^ k)

-- What a character stands for.
record Reads (d v : ℕ) : Type 0 where
  digit : base64_digit d ≡ some v
  other : (d == b'=') ≡ false
  small : v < 64

read_back : (o : Option ℕ) (i : ℕ) → stands_for o i ≡ true → o ≡ some i
read_back none i e = absurd (ground (arith, e))
read_back (some v) i e = ground (arith, e)

found_digit :
    (d i : ℕ) → (stands_for (base64_digit d) i && not (d == b'=')) ≡ true → i < 64 → Reads d i
found_digit d i e h = record {
  digit = read_back (base64_digit d) i (ground (arith, e));
  other = ground (arith, e);
  small = h;
}

digit_at-Reads : (k n : ℕ) → Reads (digit_at k n) (n / 2 ^ k % 64)
unfolding digit_at reads_back
digit_at-Reads k n =
    let i = n / 2 ^ k % 64 in
    rw (digit_value k n) (
      found_digit (get_or alphabet i 0) i (every-true reads_back 64 i all_read_back (omega arith))
        (omega arith))

-- One character more: it gives no byte, or one.
strict_passes :
    (buf bits d v : ℕ) (s : List ℕ)
    → Reads d v
    → bits < 2
    → strict_loop buf bits (d ∷ s) ≡ strict_loop (join buf v) (bits + 6) s
unfolding strict_loop
strict_passes buf bits d v s r h = ground (arith, r.digit, r.other, h)

strict_gives :
    (buf bits d v : ℕ) (s out : List ℕ)
    → Reads d v
    → 2 ≤ bits
    → strict_loop (join buf v) (bits - 2) s ≡ some out
    → strict_loop buf bits (d ∷ s) ≡ some ((join buf v / 2 ^ (bits - 2) % 2 ^ 8) ∷ out)
unfolding strict_loop
strict_gives buf bits d v s out r h e = ground (arith, r.digit, r.other, h, e)

-- Two characters joined to what is there.
join-join :
    (buf v w : ℕ) → v < 64 → w < 64 → join (join buf v) w ≡ buf % 2 ^ 20 * 2 ^ 12 + v * 2 ^ 6 + w
join-join buf v w h k = join_eq (join buf v) w k ∙ omega (arith, join_eq buf v h)

-- The three bytes of a group, of which `n` is the number.
first_byte :
    (n buf : ℕ)
    → n < 2 ^ 24
    → join (join buf (n / 2 ^ 18 % 64)) (n / 2 ^ 12 % 64) / 2 ^ 4 % 2 ^ 8 ≡ n / 2 ^ 16
first_byte n buf h =
    omega (arith, join-join buf (n / 2 ^ 18 % 64) (n / 2 ^ 12 % 64) (omega arith) (omega arith))

second_byte :
    (n buf : ℕ)
    → join (join buf (n / 2 ^ 12 % 64)) (n / 2 ^ 6 % 64) / 2 ^ 2 % 2 ^ 8 ≡ n / 2 ^ 8 % 256
second_byte n buf =
    omega (arith, join-join buf (n / 2 ^ 12 % 64) (n / 2 ^ 6 % 64) (omega arith) (omega arith))

third_byte :
    (n buf : ℕ) → join (join buf (n / 2 ^ 6 % 64)) (n / 2 ^ 0 % 64) / 2 ^ 0 % 2 ^ 8 ≡ n % 256
third_byte n buf =
    omega (arith, join-join buf (n / 2 ^ 6 % 64) (n / 2 ^ 0 % 64) (omega arith) (omega arith))

-- A group of four characters, three or two, from no bits on.
strict_loop-two :
    (n buf : ℕ) (s out : List ℕ)
    → n < 2 ^ 24
    → ((x : ℕ) → strict_loop (join x (n / 2 ^ 12 % 64)) 4 s ≡ some out)
    → strict_loop buf 0 (digit_at 18 n ∷ digit_at 12 n ∷ s) ≡ some ((n / 2 ^ 16) ∷ out)
strict_loop-two n buf s out h k =
    let v = n / 2 ^ 18 % 64 in
    let w = n / 2 ^ 12 % 64 in
    strict_passes buf 0 (digit_at 18 n) v (digit_at 12 n ∷ s) (digit_at-Reads 18 n) (omega arith)
    ∙ strict_gives (join buf v) 6 (digit_at 12 n) w s out (digit_at-Reads 12 n) (omega arith)
        (k (join buf v))
    ∙ ap (λ b. some (b ∷ out)) (first_byte n buf h)

strict_loop-three :
    (n buf : ℕ) (s out : List ℕ)
    → n < 2 ^ 24
    → ((x : ℕ) → strict_loop (join x (n / 2 ^ 6 % 64)) 2 s ≡ some out)
    → strict_loop buf 0 (digit_at 18 n ∷ digit_at 12 n ∷ digit_at 6 n ∷ s)
      ≡ some ((n / 2 ^ 16) ∷ (n / 2 ^ 8 % 256) ∷ out)
strict_loop-three n buf s out h k =
    strict_loop-two n buf (digit_at 6 n ∷ s) ((n / 2 ^ 8 % 256) ∷ out) h λ x.
      strict_gives (join x (n / 2 ^ 12 % 64)) 4 (digit_at 6 n) (n / 2 ^ 6 % 64) s out
        (digit_at-Reads 6 n) (omega arith) (k (join x (n / 2 ^ 12 % 64)))
      ∙ ap (λ b. some (b ∷ out)) (second_byte n x)

strict_loop-four :
    (n buf : ℕ) (s out : List ℕ)
    → n < 2 ^ 24
    → ((x : ℕ) → strict_loop x 0 s ≡ some out)
    → strict_loop buf 0 (digit_at 18 n ∷ digit_at 12 n ∷ digit_at 6 n ∷ digit_at 0 n ∷ s)
      ≡ some ((n / 2 ^ 16) ∷ (n / 2 ^ 8 % 256) ∷ (n % 256) ∷ out)
strict_loop-four n buf s out h k =
    strict_loop-three n buf (digit_at 0 n ∷ s) ((n % 256) ∷ out) h λ x.
      strict_gives (join x (n / 2 ^ 6 % 64)) 2 (digit_at 0 n) (n / 2 ^ 0 % 64) s out
        (digit_at-Reads 0 n) (omega arith) (k (join (join x (n / 2 ^ 6 % 64)) (n / 2 ^ 0 % 64)))
      ∙ ap (λ b. some (b ∷ out)) (third_byte n x)

two_bytes : (a b : ℕ) → b < 256 → bit_or (a * 2 ^ 16) (b * 2 ^ 8) ≡ a * 2 ^ 16 + b * 2 ^ 8
two_bytes a b h = disjoint-bit_or 16 a (b * 2 ^ 8) (omega arith)

three_bytes :
    (a b c : ℕ)
    → b < 256
    → c < 256
    → bit_or (bit_or (a * 2 ^ 16) (b * 2 ^ 8)) c ≡ a * 2 ^ 16 + b * 2 ^ 8 + c
three_bytes a b c h k =
    let whole : bit_or (a * 2 ^ 16) (b * 2 ^ 8) ≡ (a * 2 ^ 8 + b) * 2 ^ 8 =
      omega (arith, two_bytes a b h) in
    ap (λ t. bit_or t c) whole ∙ disjoint-bit_or 8 (a * 2 ^ 8 + b) c k ∙ omega arith

same_tail : {x y : ℕ} {xs ys : List ℕ} → x ≡ y → xs ≡ ys → x ∷ xs ≡ y ∷ ys
same_tail e f = cc

same_bytes : {x y : ℕ} {xs ys : List ℕ} → x ≡ y → xs ≡ ys → some (x ∷ xs) ≡ some (y ∷ ys)
same_bytes e f = cc

strict_loop-pad : (buf bits : ℕ) (s : List ℕ) → strict_loop buf bits (b'=' ∷ s) ≡ some []
unfolding strict_loop
strict_loop-pad buf bits s = refl

strict_loop-nil : (buf bits : ℕ) → strict_loop buf bits [] ≡ some []
unfolding strict_loop
strict_loop-nil buf bits = refl

strict_loop-encode_base64 :
    (s : List ℕ) (buf : ℕ) → All (λ b. b < 256) s → strict_loop buf 0 (encode_base64 s) ≡ some s
unfolding encode_base64
strict_loop-encode_base64 [] buf small = strict_loop-nil buf 0
strict_loop-encode_base64 (a ∷ []) buf (h, _) =
    strict_loop-two (a * 2 ^ 16) buf (codes "==") [] (omega arith) (λ x. strict_loop-pad _ 4 _)
    ∙ same_bytes (omega arith) refl
strict_loop-encode_base64 (a ∷ b ∷ []) buf (h, (k, _)) =
    strict_loop-three (bit_or (a * 2 ^ 16) (b * 2 ^ 8)) buf (codes "=") []
      (omega (arith, h, two_bytes a b k)) (λ x. strict_loop-pad _ 2 _)
    ∙ same_bytes (omega (arith, two_bytes a b k)) (same_tail (omega (arith, two_bytes a b k)) refl)
strict_loop-encode_base64 (a ∷ b ∷ c ∷ s) buf (h, (k, (l, small))) =
    let eq = three_bytes a b c k l in
    strict_loop-four (bit_or (bit_or (a * 2 ^ 16) (b * 2 ^ 8)) c) buf (encode_base64 s) s
      (omega (arith, h, eq)) (λ x. strict_loop-encode_base64 s x small)
    ∙ same_bytes (omega (arith, eq))
        (same_tail (omega (arith, eq)) (same_tail (omega (arith, eq)) refl))

pub length-encode_base64 : (s : List ℕ) → length (encode_base64 s) % 4 ≡ 0
unfolding encode_base64
length-encode_base64 [] = refl
length-encode_base64 (a ∷ []) = refl
length-encode_base64 (a ∷ b ∷ []) = refl
length-encode_base64 (a ∷ b ∷ c ∷ s) = omega (arith, length-encode_base64 s)

strict_decode_base64-encode_base64 :
    (s : List ℕ) → All (λ b. b < 256) s → strict_decode_base64 (encode_base64 s) ≡ some s
unfolding strict_decode_base64
strict_decode_base64-encode_base64 s small =
    let unpadded : (4 - length (encode_base64 s) % 4) % 4 ≡ 0 =
      omega (arith, length-encode_base64 s) in
    rw unpadded (rw append-nil (strict_loop-encode_base64 s 0 small))

-- Both decoders, the strict one and that of the parser, read what encode_base64 prints back as the
-- bytes that it printed, each below 256.
pub decoders-encode_base64 :
    (s : List ℕ)
    → All (λ b. b < 256) s
    → (strict_decode_base64 (encode_base64 s) ≡ some s) × (decode_base64 (encode_base64 s) ≡ s)
decoders-encode_base64 s small =
    let strict = strict_decode_base64-encode_base64 s small in
    (strict, decode_base64-strict_decode_base64 (encode_base64 s) s strict)
