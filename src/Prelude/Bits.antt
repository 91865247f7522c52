-- ===== src/Prelude/Bits.antt =====
-- `&`, `|` and `^` on native numbers as arithmetic: one equation for the lowest binary digit of
-- each, and from it masks, disjoint fields, complements and bounds at every width.
use Prim.Native.Nat.{
  ℕ, zero, suc, ◌+◌, ◌-◌, ◌*◌, ◌/◌, ◌%◌, ◌^◌, ◌≤◌, ◌<◌, min, max, bit_and, bit_or, bit_xor, digits,
  bitwise, differ, bit_and-bitwise, bit_or-bitwise, bit_xor-bitwise,
}
use mathlib.Core.Path.{◌≡◌, refl, ap}
use native.Mathlib.Nat.{pow-suc, one-le-pow, le_refl}
use native.Mathlib.Omega.{arith}

-- The count of rounds that `digits` is given does not matter once it reaches the first number.
module _ (rest : ℕ → ℕ) (pick : ℕ → ℕ → ℕ) where
  rounds_irrelevant :
      (m n a b : ℕ) → a ≤ m → a ≤ n → digits rest pick m a b ≡ digits rest pick n a b
  rounds_irrelevant zero zero a b hm hn = refl
  rounds_irrelevant zero (suc n) zero b hm hn = refl
  rounds_irrelevant zero (suc n) (suc a) b hm hn = absurd (omega arith)
  rounds_irrelevant (suc m) zero zero b hm hn = refl
  rounds_irrelevant (suc m) zero (suc a) b hm hn = absurd (omega arith)
  rounds_irrelevant (suc m) (suc n) zero b hm hn = refl
  rounds_irrelevant (suc m) (suc n) (suc a) b hm hn =
      rw (rounds_irrelevant m n (suc a / 2) (b / 2) (omega arith) (omega arith))

  lowest_digit :
      (a b : ℕ)
      → bitwise rest pick (suc a) b
        ≡ bitwise rest pick (suc a / 2) (b / 2) * 2 + pick (suc a % 2) (b % 2)
  lowest_digit a b =
      omega (arith, rounds_irrelevant a (suc a / 2) (suc a / 2) (b / 2) (omega arith) (le_refl _))

pub bit_and_step : (m n : ℕ) → bit_and m n ≡ bit_and (m / 2) (n / 2) * 2 + min (m % 2) (n % 2)
bit_and_step zero n = omega (arith, bit_and-bitwise 0 n, bit_and-bitwise 0 (n / 2))
bit_and_step (suc m) n = simp bit_and-bitwise (lowest_digit (λ y. 0) min m n)

pub bit_or_step : (m n : ℕ) → bit_or m n ≡ bit_or (m / 2) (n / 2) * 2 + max (m % 2) (n % 2)
bit_or_step zero n = omega (arith, bit_or-bitwise 0 n, bit_or-bitwise 0 (n / 2))
bit_or_step (suc m) n = simp bit_or-bitwise (lowest_digit (λ y. y) max m n)

differ_digits : (p q : ℕ) → p < 2 → q < 2 → differ p q ≡ (p + q) % 2
differ_digits zero zero hp hq = refl
differ_digits zero (suc zero) hp hq = refl
differ_digits zero (suc (suc q)) hp hq = absurd (omega arith)
differ_digits (suc zero) zero hp hq = refl
differ_digits (suc zero) (suc zero) hp hq = refl
differ_digits (suc zero) (suc (suc q)) hp hq = absurd (omega arith)
differ_digits (suc (suc p)) q hp hq = absurd (omega arith)

pub bit_xor_step : (a b : ℕ) → bit_xor a b ≡ bit_xor (a / 2) (b / 2) * 2 + (a + b) % 2
bit_xor_step zero b = simp bit_xor-bitwise (omega arith)
bit_xor_step (suc a) b = omega (
  arith,
  bit_xor-bitwise (suc a) b,
  bit_xor-bitwise (suc a / 2) (b / 2),
  lowest_digit (λ y. y) differ a b,
  differ_digits (suc a % 2) (b % 2) (omega arith) (omega arith),
)

pub zero-bit_or : (b : ℕ) → bit_or 0 b ≡ b
zero-bit_or b = bit_or-bitwise 0 b

pub zero-bit_xor : (b : ℕ) → bit_xor 0 b ≡ b
zero-bit_xor b = bit_xor-bitwise 0 b

lt_two_pow : (n : ℕ) → n < 2 ^ n
lt_two_pow zero = omega arith
lt_two_pow (suc n) = omega (arith, lt_two_pow n, pow-suc 2 n)

two_pow_suc : (q k : ℕ) → q * 2 ^ suc k ≡ 2 * (q * 2 ^ k)
two_pow_suc q k = omega (arith, ap (λ (t : ℕ). q * t) (pow-suc 2 k))

-- A value below 2 ^ k joined by `|` with a multiple of 2 ^ k is their sum.
pub bit_or_disjoint : (k r q : ℕ) → r < 2 ^ k → bit_or r (q * 2 ^ k) ≡ q * 2 ^ k + r
bit_or_disjoint zero zero q h = omega (arith, zero-bit_or (q * 2 ^ 0))
bit_or_disjoint zero (suc r) q h = absurd (omega arith)
bit_or_disjoint (suc k) r q h = ground (
  arith,
  bit_or_step r (q * 2 ^ suc k),
  two_pow_suc q k,
  pow-suc 2 k,
  bit_or_disjoint k (r / 2) q (omega (arith, pow-suc 2 k)),
)

bit_or-zero_below : (k a : ℕ) → a < 2 ^ k → bit_or a 0 ≡ a
bit_or-zero_below zero zero h = zero-bit_or 0
bit_or-zero_below zero (suc a) h = absurd (omega arith)
bit_or-zero_below (suc k) a h =
    omega (arith, bit_or_step a 0, bit_or-zero_below k (a / 2) (omega (arith, pow-suc 2 k)))

-- The same with the multiple first.
pub disjoint-bit_or : (k q r : ℕ) → r < 2 ^ k → bit_or (q * 2 ^ k) r ≡ q * 2 ^ k + r
disjoint-bit_or zero q zero h =
    omega (arith, bit_or-zero_below (q * 2 ^ 0) (q * 2 ^ 0) (lt_two_pow _))
disjoint-bit_or zero q (suc r) h = absurd (omega arith)
disjoint-bit_or (suc k) q r h = ground (
  arith,
  bit_or_step (q * 2 ^ suc k) r,
  two_pow_suc q k,
  pow-suc 2 k,
  disjoint-bit_or k q (r / 2) (omega (arith, pow-suc 2 k)),
)

-- `|` stays in the width of its arguments.
pub bit_or-lt : (k a b : ℕ) → a < 2 ^ k → b < 2 ^ k → bit_or a b < 2 ^ k
bit_or-lt zero zero b ha hb = omega (arith, zero-bit_or b)
bit_or-lt zero (suc a) b ha hb = absurd (omega arith)
bit_or-lt (suc k) a b ha hb =
    let half =
      bit_or-lt k (a / 2) (b / 2) (omega (arith, pow-suc 2 k)) (omega (arith, pow-suc 2 k)) in
    omega (arith, bit_or_step a b, pow-suc 2 k, half)

bit_and_zero : (k a : ℕ) → a < 2 ^ k → bit_and a 0 ≡ 0
bit_and_zero zero zero h = bit_and-bitwise 0 0
bit_and_zero zero (suc a) h = absurd (omega arith)
bit_and_zero (suc k) a h =
    omega (arith, bit_and_step a 0, bit_and_zero k (a / 2) (omega (arith, pow-suc 2 k)))

pub two-pow-pos : (k : ℕ) → 1 ≤ 2 ^ k
two-pow-pos k = one-le-pow k 2 (omega arith)

ones_half : (k : ℕ) → (2 ^ suc k - 1) / 2 ≡ 2 ^ k - 1
ones_half k = omega (arith, pow-suc 2 k, two-pow-pos k)

mod_twice : (a p : ℕ) → 1 ≤ p → a % (p * 2) ≡ a / 2 % p * 2 + a % 2
mod_twice a p h = mod_unique (a / 2 / p) (a / 2 % p * 2 + a % 2) (grind arith) (grind arith)
  where
    mod_unique : (q r : ℕ) → a ≡ q * (p * 2) + r → r < p * 2 → a % (p * 2) ≡ r
    mod_unique q r e lt = grind arith

-- A mask of k ones is the remainder by 2 ^ k.
pub bit_and_mask : (k a : ℕ) → bit_and a (2 ^ k - 1) ≡ a % 2 ^ k
bit_and_mask zero a = omega (arith, bit_and_zero a a (lt_two_pow a))
bit_and_mask (suc k) a = omega (
  arith,
  bit_and_step a (2 ^ suc k - 1),
  ap (λ (t : ℕ). bit_and (a / 2) t) (ones_half k),
  bit_and_mask k (a / 2),
  mod_twice a (2 ^ k) (two-pow-pos k),
  ap (λ (t : ℕ). a % t) (pow-suc 2 k),
  pow-suc 2 k,
  two-pow-pos k,
)

-- Against k ones, `^` is the complement.
pub bit_xor_ones : (k a : ℕ) → a < 2 ^ k → bit_xor a (2 ^ k - 1) ≡ 2 ^ k - 1 - a
bit_xor_ones zero zero h = bit_xor-bitwise 0 0
bit_xor_ones zero (suc a) h = absurd (omega arith)
bit_xor_ones (suc k) a h = omega (
  arith,
  bit_xor_step a (2 ^ suc k - 1),
  ap (λ (t : ℕ). bit_xor (a / 2) t) (ones_half k),
  bit_xor_ones k (a / 2) (omega (arith, pow-suc 2 k)),
  pow-suc 2 k,
  two-pow-pos k,
)

bit_and_double : (b m : ℕ) → bit_and b (m * 2) ≡ bit_and (b / 2) m * 2
bit_and_double b m =
    omega (arith, bit_and_step b (m * 2), ap (λ (t : ℕ). bit_and (b / 2) t) (half_double m))
  where
    half_double : (m : ℕ) → m * 2 / 2 ≡ m
    half_double m = omega arith

bit_and_quadruple : (b m : ℕ) → bit_and b (m * 4) ≡ bit_and (b / 4) m * 4
bit_and_quadruple b m = omega (
  arith,
  ap (bit_and b) (twice_twice m),
  bit_and_double b (m * 2),
  bit_and_double (b / 2) m,
  ap (λ (t : ℕ). bit_and t m) (quarter b),
)
  where
    twice_twice : (m : ℕ) → m * 4 ≡ m * 2 * 2
    twice_twice m = omega arith

    quarter : (b : ℕ) → b / 2 / 2 ≡ b / 4
    quarter b = omega arith

bit_and_sixteenfold : (b m : ℕ) → bit_and b (m * 16) ≡ bit_and (b / 16) m * 16
bit_and_sixteenfold b m = omega (
  arith,
  ap (bit_and b) (four_fours m),
  bit_and_quadruple b (m * 4),
  bit_and_quadruple (b / 4) m,
  ap (λ (t : ℕ). bit_and t m) (sixteenth b),
)
  where
    four_fours : (m : ℕ) → m * 16 ≡ m * 4 * 4
    four_fours m = omega arith

    sixteenth : (b : ℕ) → b / 4 / 4 ≡ b / 16
    sixteenth b = omega arith

-- The top bit of a byte.
pub bit_and_top : (b : ℕ) → bit_and b 0x80 ≡ b / 128 % 2 * 128
bit_and_top b = omega (
  arith,
  bit_and_sixteenfold b 8,
  bit_and_quadruple (b / 16) 2,
  bit_and_double (b / 16 / 4) 1,
  ap (λ (t : ℕ). bit_and t 1) (eighths b),
  bit_and_mask 1 (b / 128),
)
  where
    eighths : (b : ℕ) → b / 16 / 4 / 2 ≡ b / 128
    eighths b = omega arith

pub bit_xor-zero : (a : ℕ) → bit_xor a 0 ≡ a
bit_xor-zero a = below a a (lt_two_pow a)
  where
    below : (k a : ℕ) → a < 2 ^ k → bit_xor a 0 ≡ a
    below zero zero h = bit_xor-bitwise 0 0
    below zero (suc a) h = absurd (omega arith)
    below (suc k) a h =
        omega (arith, bit_xor_step a 0, below k (a / 2) (omega (arith, pow-suc 2 k)))
