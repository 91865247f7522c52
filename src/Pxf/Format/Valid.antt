-- ===== src/Pxf/Format/Valid.antt =====
-- crates/protowire-pxf/src: `encode_base64` of format.rs against `is_valid_base64` of lexer.rs.
use protowire_rust.Prelude.{
  ℕ, zero, suc, ◌-◌, ◌/◌, ◌%◌, ◌^◌, ◌≤◌, List, [], ◌∷◌, ◌++◌, reverse, Bool, true, false, not, ◌||◌,
  ◌==◌, ◌≡◌, refl, ap, ◌∙◌, arith, length, length-append, get_or, take, take-append, replicate,
  bit_or, ◌*◌, if◌then◌else◌, All,
}
use mathlib.Core.List.{reverse-cons, reverse-append}
use protowire_rust.Pxf.Chars.{is_alphabetic, is_digit}
use protowire_rust.Pxf.Literals.{all_bytes, trailing_pad, is_valid_base64}
use protowire_rust.Pxf.Format.{alphabet, digit_at, encode_base64}
use protowire_rust.Pxf.Format.Base64.{every, every-true, digit_value, length-encode_base64}

unfoldable pub base64_byte : ℕ → Bool
unfolding is_digit
base64_byte b = is_alphabetic b || is_digit b || b == b'+' || b == b'/'

abbrev pub Is64 : ℕ → Type 0
Is64 b = base64_byte b ≡ true

abbrev digit_ok : ℕ → Bool
digit_ok i = base64_byte (get_or alphabet i 0)

all_digits_ok : every digit_ok 64 ≡ true
unfolding base64_byte
all_digits_ok = refl

digit_at-Is64 : (k n : ℕ) → Is64 (digit_at k n)
unfolding digit_at
digit_at-Is64 k n =
    rw (digit_value k n) (every-true digit_ok 64 (n / 2 ^ k % 64) all_digits_ok (omega arith))

-- Digits, and the padding behind them.
pub record Coded (t : List ℕ) : Type 0 where
  pub body : List ℕ
  pub pad : ℕ
  pub short : pad ≤ 2
  pub digits : All Is64 body
  pub form : t ≡ body ++ replicate pad b'='

digit-Coded : (k n : ℕ) (t : List ℕ) → Coded t → Coded (digit_at k n ∷ t)
digit-Coded k n t c = record {
  body = digit_at k n ∷ c.body;
  pad = c.pad;
  short = c.short;
  digits = (digit_at-Is64 k n, c.digits);
  form = ap (λ x. digit_at k n ∷ x) c.form;
}

padding-Coded : (k : ℕ) → k ≤ 2 → Coded (replicate k b'=')
padding-Coded k h = record { body = []; pad = k; short = h; digits = tt; form = refl }

pub encode_base64-Coded : (s : List ℕ) → Coded (encode_base64 s)
unfolding encode_base64
encode_base64-Coded [] = padding-Coded 0 (omega arith)
encode_base64-Coded (a ∷ []) =
    let n = a * 2 ^ 16 in digit-Coded 18 n _ (digit-Coded 12 n _ (padding-Coded 2 (omega arith)))
encode_base64-Coded (a ∷ b ∷ []) =
    let n = bit_or (a * 2 ^ 16) (b * 2 ^ 8) in
    digit-Coded 18 n _ (digit-Coded 12 n _ (digit-Coded 6 n _ (padding-Coded 1 (omega arith))))
encode_base64-Coded (a ∷ b ∷ c ∷ s) =
    let n = bit_or (bit_or (a * 2 ^ 16) (b * 2 ^ 8)) c in
    digit-Coded 18 n _
      (digit-Coded 12 n _ (digit-Coded 6 n _ (digit-Coded 0 n _ (encode_base64-Coded s))))

no_pad : (n : ℕ) (xs : List ℕ) → All Is64 xs → trailing_pad n xs ≡ 0
unfolding trailing_pad base64_byte
no_pad zero xs h = refl
no_pad (suc n) [] h = refl
no_pad (suc n) (x ∷ xs) h = ground (arith, h.0)

All-snoc : (xs : List ℕ) (x : ℕ) → All Is64 xs → Is64 x → All Is64 (xs ++ (x ∷ []))
All-snoc [] x h k = (k, tt)
All-snoc (y ∷ xs) x h k = (h.0, All-snoc xs x h.1 k)

All-reverse : (xs : List ℕ) → All Is64 xs → All Is64 (reverse xs)
All-reverse [] h = tt
All-reverse (x ∷ xs) h = rw (reverse-cons x xs) (All-snoc (reverse xs) x (All-reverse xs h.1) h.0)

trailing_pad-Coded :
    (k : ℕ) (body : List ℕ)
    → k ≤ 2
    → All Is64 body
    → trailing_pad 2 (reverse (body ++ replicate k b'=')) ≡ k
unfolding trailing_pad
trailing_pad-Coded zero body h all =
    rw (reverse-append body []) (no_pad 2 (reverse body) (All-reverse body all))
trailing_pad-Coded (suc zero) body h all =
    rw (reverse-append body (b'=' ∷ [])) (ap suc (no_pad 1 (reverse body) (All-reverse body all)))
trailing_pad-Coded (suc (suc zero)) body h all = rw (reverse-append body (b'=' ∷ b'=' ∷ [])) refl
trailing_pad-Coded (suc (suc (suc k))) body h all = absurd (omega arith)

all_bytes-All : (xs : List ℕ) → All Is64 xs → all_bytes base64_byte xs ≡ true
unfolding all_bytes
all_bytes-All [] h = refl
all_bytes-All (x ∷ xs) h = rw (h.0) (all_bytes-All xs h.1)

length-replicate : (n b : ℕ) → length (replicate n b) ≡ n
length-replicate zero b = refl
length-replicate (suc n) b = ap suc (length-replicate n b)

take_body :
    (body : List ℕ) (k : ℕ)
    → take (length (body ++ replicate k b'=') - k) (body ++ replicate k b'=') ≡ body
take_body body k =
    let long : length (body ++ replicate k b'=') - k ≡ length body =
      omega (arith, length-append body (replicate k b'='), length-replicate k b'=') in
    ap (λ n. take n (body ++ replicate k b'=')) long ∙ take-append body (replicate k b'=')

-- The checks of `is_valid_base64`, where the padding and the digits before it are known.
checks :
    (t : List ℕ) (pad : ℕ) (digits : Bool)
    → digits ≡ true
    → length t % 4 ≡ 0
    → (if length t == 0
        then true
        else if not digits
        then false
        else if pad == 0
        then not (length t % 4 == 1)
        else length t % 4 == 0)
      ≡ true
checks t pad digits e h = ground (arith, e, h)

pub is_valid_base64-encode_base64 : (s : List ℕ) → is_valid_base64 (encode_base64 s) ≡ true
unfolding is_valid_base64 base64_byte
is_valid_base64-encode_base64 s =
    let t = encode_base64 s in
    let c = encode_base64-Coded s in
    let pad : trailing_pad 2 (reverse t) ≡ c.pad =
      ap (λ x. trailing_pad 2 (reverse x)) c.form
      ∙ trailing_pad-Coded c.pad c.body c.short c.digits in
    let body : take (length t - c.pad) t ≡ c.body =
      ap (λ x. take (length x - c.pad) x) c.form ∙ take_body c.body c.pad in
    let all : all_bytes base64_byte (take (length t - trailing_pad 2 (reverse t)) t) ≡ true =
      ap (λ n. all_bytes base64_byte (take (length t - n) t)) pad
      ∙ ap (all_bytes base64_byte) body
      ∙ all_bytes-All c.body c.digits in
    checks t (trailing_pad 2 (reverse t)) _ all (length-encode_base64 s)
