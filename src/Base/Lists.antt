-- ===== src/Base/Lists.antt =====
-- Lists measured and indexed by native numbers, under the library's names.
use Prim.Native.Nat.{ℕ, zero, suc, ◌+◌, ◌≤◌, ◌<◌}
use mathlib.Core.Path.{◌≡◌, refl, ap}
use mathlib.Core.Logic.{◌≢◌, ◌⊎◌, inl, inr}
use mathlib.Core.List.{List, [], ◌∷◌, ◌++◌}
use mathlib.Core.Option.{Option, none, some}
use native.Mathlib.Omega.{arith}

module _ {ℓ} {A : Type ℓ} where
  abbrev pub length : List A → ℕ
  length [] = 0
  length (x ∷ xs) = suc (length xs)

  abbrev pub get_elem? : List A → ℕ → Option A
  get_elem? [] i = none
  get_elem? (x ∷ xs) zero = some x
  get_elem? (x ∷ xs) (suc i) = get_elem? xs i

  -- A write out of bounds changes nothing.
  abbrev pub set : List A → ℕ → A → List A
  set [] i v = []
  set (x ∷ xs) zero v = v ∷ xs
  set (x ∷ xs) (suc i) v = x ∷ set xs i v

  abbrev pub take : ℕ → List A → List A
  take zero xs = []
  take (suc n) [] = []
  take (suc n) (x ∷ xs) = x ∷ take n xs

  abbrev pub drop : ℕ → List A → List A
  drop zero xs = xs
  drop (suc n) [] = []
  drop (suc n) (x ∷ xs) = drop n xs

  abbrev pub replicate : ℕ → A → List A
  replicate zero a = []
  replicate (suc n) a = a ∷ replicate n a

  pub take-length : (xs : List A) → take (length xs) xs ≡ xs
  take-length [] = refl
  take-length (x ∷ xs) = ap (◌∷◌ x) (take-length xs)

  pub length-append : (xs ys : List A) → length (xs ++ ys) ≡ length xs + length ys
  length-append [] ys = omega arith
  length-append (x ∷ xs) ys = omega (arith, length-append xs ys)

  pub length-set : (xs : List A) (i : ℕ) (v : A) → length (set xs i v) ≡ length xs
  length-set [] i v = refl
  length-set (x ∷ xs) zero v = refl
  length-set (x ∷ xs) (suc i) v = ap suc (length-set xs i v)

  pub get_elem?-set_self :
      (xs : List A) (i : ℕ) (v : A) → i < length xs → get_elem? (set xs i v) i ≡ some v
  get_elem?-set_self [] i v h = elim h [ ]
  get_elem?-set_self (x ∷ xs) zero v h = refl
  get_elem?-set_self (x ∷ xs) (suc i) v h = get_elem?-set_self xs i v (omega arith)

  pub get_elem?-set_ne :
      (xs : List A) (i j : ℕ) (v : A) → i ≢ j → get_elem? (set xs i v) j ≡ get_elem? xs j
  get_elem?-set_ne [] i j v h = refl
  get_elem?-set_ne (x ∷ xs) zero zero v h = absurd (h refl)
  get_elem?-set_ne (x ∷ xs) zero (suc j) v h = refl
  get_elem?-set_ne (x ∷ xs) (suc i) zero v h = refl
  get_elem?-set_ne (x ∷ xs) (suc i) (suc j) v h = get_elem?-set_ne xs i j v (λ e. h (ap suc e))

  -- `memcpy`, or a loop that copies the first `n` elements: the target keeps what lies behind. What
  -- the source has not, and what the target has no room for, is left out.
  abbrev pub overwrite : List A → List A → ℕ → List A
  overwrite xs ys zero = xs
  overwrite [] ys (suc n) = []
  overwrite (x ∷ xs) [] (suc n) = x ∷ xs
  overwrite (x ∷ xs) (y ∷ ys) (suc n) = y ∷ overwrite xs ys n

  pub length-overwrite : (xs ys : List A) (n : ℕ) → length (overwrite xs ys n) ≡ length xs
  length-overwrite xs ys zero = refl
  length-overwrite [] ys (suc n) = refl
  length-overwrite (x ∷ xs) [] (suc n) = refl
  length-overwrite (x ∷ xs) (y ∷ ys) (suc n) = ap suc (length-overwrite xs ys n)

  pub take-overwrite :
      (xs ys : List A) (n : ℕ)
      → n ≤ length xs
      → n ≤ length ys
      → take n (overwrite xs ys n) ≡ take n ys
  take-overwrite xs ys zero h k = refl
  take-overwrite [] ys (suc n) h k = absurd (omega arith)
  take-overwrite (x ∷ xs) [] (suc n) h k = absurd (omega arith)
  take-overwrite (x ∷ xs) (y ∷ ys) (suc n) h k =
      ap (◌∷◌ y) (take-overwrite xs ys n (omega arith) (omega arith))

  -- Copying a prefix on copies just those elements.
  pub overwrite-overwrite :
      (zs xs ys : List A) (n : ℕ)
      → n ≤ length xs
      → n ≤ length ys
      → overwrite zs (overwrite xs ys n) n ≡ overwrite zs ys n
  overwrite-overwrite zs xs ys zero h k = refl
  overwrite-overwrite zs [] ys (suc n) h k = absurd (omega arith)
  overwrite-overwrite zs (x ∷ xs) [] (suc n) h k = absurd (omega arith)
  overwrite-overwrite [] (x ∷ xs) (y ∷ ys) (suc n) h k = refl
  overwrite-overwrite (z ∷ zs) (x ∷ xs) (y ∷ ys) (suc n) h k =
      ap (◌∷◌ y) (overwrite-overwrite zs xs ys n (omega arith) (omega arith))

  pub length-replicate : (n : ℕ) (a : A) → length (replicate n a) ≡ n
  length-replicate zero a = refl
  length-replicate (suc n) a = ap suc (length-replicate n a)

-- To split on a computed list and keep the equation.
pub List-cases {ℓ} :
    {A : Type ℓ} (xs : List A) → (xs ≡ []) ⊎ ((x : A) × (rest : List A) × (xs ≡ x ∷ rest))
List-cases [] = inl refl
List-cases (x ∷ xs) = inr (x, xs, refl)
