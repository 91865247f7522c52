-- ===== src/Envelope/Map.antt =====
-- What the envelope uses of `HashMap`: an association list with distinct keys.
use protowire_rust.Prelude.{
  ℕ, ◌≡◌, refl, List, [], ◌∷◌, ◌++◌, Bool, true, false, ◌&&◌, ◌||◌, Option, none, some, ◌==◌,
  if◌then◌else◌, arith,
}

-- The equality of byte strings.
unfoldable pub str_eq : List ℕ → List ℕ → Bool
str_eq [] [] = true
str_eq [] (b ∷ bs) = false
str_eq (a ∷ more) [] = false
str_eq (a ∷ more) (b ∷ bs) = a == b && str_eq more bs

pub str_eq_refl : (s : List ℕ) → str_eq s s ≡ true
unfolding str_eq
str_eq_refl [] = refl
str_eq_refl (a ∷ s) = ground (arith, str_eq_refl s)

pub str_eq→eq : (s t : List ℕ) → str_eq s t ≡ true → s ≡ t
unfolding str_eq
str_eq→eq [] [] h = refl
str_eq→eq [] (b ∷ t) h = cc
str_eq→eq (a ∷ s) [] h = cc
str_eq→eq (a ∷ s) (b ∷ t) h = ground (arith, str_eq→eq s t)

module _ {V : Type 0} where
  unfoldable pub get : List ℕ → List (List ℕ × V) → Option V
  unfolding str_eq
  get k [] = none
  get k ((j, v) ∷ m) = if str_eq j k then some v else get k m

  unfoldable pub contains_key : List ℕ → List (List ℕ × V) → Bool
  unfolding str_eq
  contains_key k [] = false
  contains_key k ((j, v) ∷ m) = str_eq j k || contains_key k m

  -- A key that is there keeps its place; a new one comes last.
  unfoldable pub insert : List ℕ → V → List (List ℕ × V) → List (List ℕ × V)
  unfolding str_eq
  insert k v [] = (k, v) ∷ []
  insert k v ((j, w) ∷ m) = if str_eq j k then (j, v) ∷ m else (j, w) ∷ insert k v m

  -- No key of the list is among those before it, `seen` included.
  abbrev pub IsFresh : List (List ℕ × V) → List (List ℕ × V) → Type 0
  IsFresh seen [] = Unit
  IsFresh seen ((k, v) ∷ m) = (contains_key k seen ≡ false) × IsFresh (seen ++ ((k, v) ∷ [])) m

  abbrev pub HasDistinctKeys : List (List ℕ × V) → Type 0
  HasDistinctKeys m = IsFresh [] m

module _ {V : Type 0} where
  pub get-insert :
      (k j : List ℕ) (v : V) (m : List (List ℕ × V))
      → get j (insert k v m) ≡ (if str_eq k j then some v else get j m)
  unfolding get insert
  get-insert k j v [] = refl
  get-insert k j v ((i, w) ∷ m) = ground (
    arith,
    get-insert k j v m,
    str_eq→eq i k,
    str_eq→eq k j,
    str_eq→eq i j,
    str_eq_refl k,
    str_eq_refl i,
    str_eq_refl j,
  )

  pub insert_new :
      (k : List ℕ) (v : V) (m : List (List ℕ × V))
      → contains_key k m ≡ false
      → insert k v m ≡ m ++ ((k, v) ∷ [])
  unfolding insert contains_key
  insert_new k v [] h = refl
  insert_new k v ((j, w) ∷ m) h = ground (arith, insert_new k v m)
