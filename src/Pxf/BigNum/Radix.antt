-- ===== src/Pxf/BigNum/Radix.antt =====
-- Numbers written in a base, for bignum.rs: bytes in base 256 and decimal digits in base 10, most
-- significant first as it takes and returns them, least significant first as its loops build them.
use protowire_rust.Prelude.{
  ℕ, zero, suc, ◌+◌, ◌-◌, ◌*◌, ◌≤◌, ◌<◌, List, [], ◌∷◌, ◌++◌, reverse, All, ◌≡◌, ◌≢◌, ◌∙◌, refl, ap,
  sym, arith,
}
use mathlib.Core.List.{reverse-append, reverse-reverse}

-- `nil` is the digit that stands for zero: b'0' in a text.
module _ (base nil : ℕ) where
  -- The number that digits stand for, most significant first, after digits that stand for `acc`.
  abbrev pub number : ℕ → List ℕ → ℕ
  number acc [] = acc
  number acc (d ∷ ds) = number (acc * base + (d - nil)) ds

  -- The number that digits stand for, least significant first.
  abbrev pub low_number : List ℕ → ℕ
  low_number [] = 0
  low_number (d ∷ ds) = (d - nil) + base * low_number ds

  abbrev pub IsDigit : ℕ → Type 0
  IsDigit d = (nil ≤ d) × (d < nil + base)

  -- No zero at the significant end, of digits from either side.
  abbrev pub IsTrimmed : List ℕ → Type 0
  IsTrimmed [] = Unit {0}
  IsTrimmed (d ∷ []) = d ≢ nil
  IsTrimmed (d ∷ e ∷ ds) = IsTrimmed (e ∷ ds)

  abbrev pub Leads : List ℕ → Type 0
  Leads [] = Unit {0}
  Leads (d ∷ ds) = d ≢ nil

  pub number-snoc :
      (acc d : ℕ) (ds : List ℕ) → number acc (ds ++ (d ∷ [])) ≡ number acc ds * base + (d - nil)
  number-snoc acc d [] = refl
  number-snoc acc d (e ∷ ds) = number-snoc (acc * base + (e - nil)) d ds

  pub number-reverse : (ds : List ℕ) → number 0 (reverse ds) ≡ low_number ds
  number-reverse [] = refl
  number-reverse (d ∷ ds) =
      rw (reverse-append (d ∷ []) ds)
        (omega (arith, number-snoc 0 d (reverse ds), ap (λ (t : ℕ). base * t) (number-reverse ds)))

  pub IsTrimmed-cons :
      (d : ℕ) (ds : List ℕ) → IsTrimmed ds → 0 < low_number (d ∷ ds) → IsTrimmed (d ∷ ds)
  IsTrimmed-cons d [] h pos = omega arith
  IsTrimmed-cons d (e ∷ ds) h pos = h

  pub IsTrimmed-tail : (d : ℕ) (ds : List ℕ) → IsTrimmed (d ∷ ds) → IsTrimmed ds
  IsTrimmed-tail d [] h = tt
  IsTrimmed-tail d (e ∷ ds) h = h

  pub IsTrimmed-pos :
      (d : ℕ) (ds : List ℕ)
      → 0 < base
      → IsTrimmed (d ∷ ds)
      → All IsDigit (d ∷ ds)
      → 0 < low_number (d ∷ ds)
  IsTrimmed-pos d [] b h a = omega arith
  IsTrimmed-pos d (e ∷ ds) b h a = let rest = IsTrimmed-pos e ds b h a.1 in grind arith

  IsTrimmed-snoc : (d : ℕ) (ds : List ℕ) → d ≢ nil → IsTrimmed (ds ++ (d ∷ []))
  IsTrimmed-snoc d [] h = h
  IsTrimmed-snoc d (e ∷ []) h = h
  IsTrimmed-snoc d (e ∷ f ∷ ds) h = IsTrimmed-snoc d (f ∷ ds) h

  snoc-IsTrimmed : (d : ℕ) (ds : List ℕ) → IsTrimmed (ds ++ (d ∷ [])) → d ≢ nil
  snoc-IsTrimmed d [] h = h
  snoc-IsTrimmed d (e ∷ []) h = h
  snoc-IsTrimmed d (e ∷ f ∷ ds) h = snoc-IsTrimmed d (f ∷ ds) h

  pub Leads-reverse : (ds : List ℕ) → Leads ds → IsTrimmed (reverse ds)
  Leads-reverse [] h = tt
  Leads-reverse (d ∷ ds) h = rw (reverse-append (d ∷ []) ds) (IsTrimmed-snoc d (reverse ds) h)

  pub IsTrimmed-reverse : (ds : List ℕ) → IsTrimmed ds → Leads (reverse ds)
  IsTrimmed-reverse ds h = leads (reverse ds) (rw (reverse-reverse ds) h)
    where
      leads : (es : List ℕ) → IsTrimmed (reverse es) → Leads es
      leads [] k = tt
      leads (e ∷ es) k = snoc-IsTrimmed e (reverse es) (rw (reverse-append (e ∷ []) es) at k)

module _ (P : ℕ → Type 0) where
  pub All-append : (ds es : List ℕ) → All P es → All P ds → All P (ds ++ es)
  All-append [] es k h = k
  All-append (d ∷ ds) es k h = (h.0, All-append ds es k h.1)

  pub All-reverse : (ds : List ℕ) → All P ds → All P (reverse ds)
  All-reverse [] h = tt
  All-reverse (d ∷ ds) h =
      rw (reverse-append (d ∷ []) ds)
        (All-append (reverse ds) (d ∷ []) (h.0, tt) (All-reverse ds h.1))

module _ (base nil : ℕ) (two : 2 ≤ base) where
  -- The lowest digit and the rest are determined.
  digit_unique :
      (d e p q : ℕ)
      → IsDigit base nil d
      → IsDigit base nil e
      → (d - nil) + base * p ≡ (e - nil) + base * q
      → (d ≡ e) × (p ≡ q)
  digit_unique d e zero zero hd he eq = (omega arith, refl)
  digit_unique d e zero (suc q) hd he eq = absurd (omega arith)
  digit_unique d e (suc p) zero hd he eq = absurd (omega arith)
  digit_unique d e (suc p) (suc q) hd he eq =
      let (here, rest) = digit_unique d e p q hd he (omega arith) in (here, ap suc rest)

  pub low_number_unique :
      (ds es : List ℕ)
      → All (IsDigit base nil) ds
      → All (IsDigit base nil) es
      → IsTrimmed base nil ds
      → IsTrimmed base nil es
      → low_number base nil ds ≡ low_number base nil es
      → ds ≡ es
  low_number_unique [] [] a b h k eq = refl
  low_number_unique [] (e ∷ es) a b h k eq =
      absurd (omega (arith, IsTrimmed-pos base nil e es (omega arith) k b))
  low_number_unique (d ∷ ds) [] a b h k eq =
      absurd (omega (arith, IsTrimmed-pos base nil d ds (omega arith) h a))
  low_number_unique (d ∷ ds) (e ∷ es) a b h k eq =
      let (here, rest) = digit_unique d e _ _ a.0 b.0 eq in
      let tails =
        low_number_unique ds es a.1 b.1 (IsTrimmed-tail base nil d ds h)
          (IsTrimmed-tail base nil e es k) rest in
      cc

  -- Digits with no leading zero are determined by their number.
  pub number_unique :
      (ds es : List ℕ)
      → All (IsDigit base nil) ds
      → All (IsDigit base nil) es
      → Leads base nil ds
      → Leads base nil es
      → number base nil 0 ds ≡ number base nil 0 es
      → ds ≡ es
  number_unique ds es a b h k eq =
      sym (reverse-reverse ds)
      ∙ ap reverse (
          low_number_unique (reverse ds) (reverse es) (All-reverse _ ds a) (All-reverse _ es b)
            (Leads-reverse base nil ds h) (Leads-reverse base nil es k)
            (swapped ds ∙ eq ∙ sym (swapped es)))
      ∙ reverse-reverse es
    where
      swapped : (xs : List ℕ) → low_number base nil (reverse xs) ≡ number base nil 0 xs
      swapped xs =
          sym (number-reverse base nil (reverse xs)) ∙ ap (number base nil 0) (reverse-reverse xs)
