-- ===== src/Pxf/BigNum/Texts.antt =====
-- bignum.rs: what the checks on a literal make of digits, a sign, a point and zeros.
use protowire_rust.Prelude.{
  ℕ, zero, suc, ◌≤◌, ◌<◌, List, [], ◌∷◌, ◌++◌, All, ◌≡◌, ap, length, refl, arith, true, false, ◌==◌,
  take, drop, replicate,
}
use protowire_rust.Pxf.Chars.{is_digit}
use protowire_rust.Pxf.BigNum.Radix
use protowire_rust.Pxf.BigNum.{
  ok, err, too_many_digits, count_digits, all_digits, check_literal_digits, strip_minus,
  split_point, significant, bound_literal,
}
use protowire_rust.Pxf.BigNum.ToBytes.{IsDecimal, decimal_number}

pub decimal-is_digit : (c : ℕ) → IsDecimal c → is_digit c ≡ true
unfolding is_digit
decimal-is_digit c h = ground arith

pub count_digits-length : (ds : List ℕ) → All IsDecimal ds → count_digits ds ≡ length ds
unfolding count_digits
count_digits-length [] h = refl
count_digits-length (d ∷ ds) h = ground (arith, decimal-is_digit d h.0, count_digits-length ds h.1)

pub all_digits-decimal : (ds : List ℕ) → All IsDecimal ds → all_digits ds ≡ true
unfolding all_digits
all_digits-decimal [] h = refl
all_digits-decimal (d ∷ ds) h = rw (decimal-is_digit d h.0) (all_digits-decimal ds h.1)

pub strip_minus-decimal : (ds : List ℕ) → All IsDecimal ds → strip_minus ds ≡ (false, ds)
unfolding strip_minus
strip_minus-decimal [] h = refl
strip_minus-decimal (d ∷ ds) h = ground arith

-- A point behind digits is where `split_once` cuts.
pub split_point-at :
    (ds es : List ℕ) → All IsDecimal ds → split_point (ds ++ (b'.' ∷ es)) ≡ (ds, es)
unfolding split_point
split_point-at [] es h = refl
split_point-at (d ∷ ds) es h =
    let other : (d == b'.') ≡ false = ground arith in rw (other, split_point-at ds es h.1) refl

pub split_point-none : (ds : List ℕ) → All IsDecimal ds → split_point ds ≡ (ds, [])
unfolding split_point
split_point-none [] h = refl
split_point-none (d ∷ ds) h =
    let other : (d == b'.') ≡ false = ground arith in rw (other, split_point-none ds h.1) refl

-- A point is no digit, wherever it stands.
pub count_digits-point :
    (xs ys : List ℕ) → count_digits (xs ++ (b'.' ∷ ys)) ≡ count_digits (xs ++ ys)
unfolding count_digits is_digit
count_digits-point [] ys = omega arith
count_digits-point (x ∷ xs) ys = omega (arith, count_digits-point xs ys)

pub significant-point : (xs ys : List ℕ) → significant (xs ++ (b'.' ∷ ys)) ≡ significant (xs ++ ys)
unfolding significant
significant-point [] ys = refl
significant-point (x ∷ xs) ys = ground (arith, significant-point xs ys, count_digits-point xs ys)

pub significant-le : (s : List ℕ) → significant s ≤ count_digits s
unfolding significant count_digits
significant-le [] = omega arith
significant-le (c ∷ s) = ground (arith, significant-le s)

pub significant-zeros : (n : ℕ) (s : List ℕ) → significant (replicate n b'0' ++ s) ≡ significant s
unfolding significant is_digit
significant-zeros zero s = refl
significant-zeros (suc n) s = significant-zeros n s

pub significant-Leads :
    (ds : List ℕ) → All IsDecimal ds → Radix.Leads 10 b'0' ds → significant ds ≡ length ds
unfolding significant
significant-Leads [] h lead = refl
significant-Leads (d ∷ ds) h lead =
    ground (arith, decimal-is_digit d h.0, count_digits-length ds h.1)

-- Zeros in front of digits.
pub zeros-IsDecimal :
    (n : ℕ) (ds : List ℕ) → All IsDecimal ds → All IsDecimal (replicate n b'0' ++ ds)
zeros-IsDecimal zero ds h = h
zeros-IsDecimal (suc n) ds h = ((omega arith, omega arith), zeros-IsDecimal n ds h)

pub zeros-number :
    (n : ℕ) (ds : List ℕ) → decimal_number (replicate n b'0' ++ ds) ≡ decimal_number ds
zeros-number zero ds = refl
zeros-number (suc n) ds = zeros-number n ds

pub length-replicate : (n : ℕ) → length {A = ℕ} (replicate n b'0') ≡ n
length-replicate zero = refl
length-replicate (suc n) = ap suc (length-replicate n)

pub take-drop : (n : ℕ) (xs : List ℕ) → take n xs ++ drop n xs ≡ xs
take-drop zero xs = refl
take-drop (suc n) [] = refl
take-drop (suc n) (x ∷ xs) = ap (λ t. x ∷ t) (take-drop n xs)

pub take-All : (P : ℕ → Type 0) (n : ℕ) (xs : List ℕ) → All P xs → All P (take n xs)
take-All P zero xs h = tt
take-All P (suc n) [] h = tt
take-All P (suc n) (x ∷ xs) h = (h.0, take-All P n xs h.1)

-- The check on a literal, and the bound on a rendered one.
pub check_literal_digits-ok :
    (s : List ℕ) (m : ℕ) → count_digits s ≤ m → check_literal_digits s m ≡ ok tt
unfolding check_literal_digits
check_literal_digits-ok s m h = ground arith

count_digits-le : (s : List ℕ) → count_digits s ≤ length s
unfolding count_digits
count_digits-le [] = omega arith
count_digits-le (c ∷ s) = ground (arith, count_digits-le s)

pub check_literal_digits-err :
    (s : List ℕ) (m : ℕ)
    → m < count_digits s
    → check_literal_digits s m ≡ err (too_many_digits (count_digits s) m)
unfolding check_literal_digits
check_literal_digits-err s m h = ground (arith, count_digits-le s)

pub bound_literal-ok :
    (kind s t : List ℕ) → bound_literal kind s ≡ ok t → (t ≡ s) × (significant s ≤ 4096)
unfolding bound_literal
bound_literal-ok kind s t h = ground (arith, significant-le s, count_digits-le s)

pub bound_literal-significant :
    (kind s : List ℕ) → significant s ≤ 4096 → bound_literal kind s ≡ ok s
unfolding bound_literal
bound_literal-significant kind s h = ground arith
