-- ===== src/LinkedList/Chain.antt =====
-- Which entries a list has: from the head the `next` links lead through them and back, and the
-- `prev` links lead the other way.
use umtp.Base.{
  ℕ, ◌≡◌, refl, Bool, true, false, ◌||◌, List, [], ◌∷◌, ◌++◌, arith, ◌==◌, if◌then◌else◌, ◌⊎◌,
}
use umtp.LinkedList.{Links}

abbrev pub mem : ℕ → List ℕ → Bool
mem p [] = false
mem p (x ∷ xs) = if x == p then true else mem p xs

abbrev pub Distinct : List ℕ → Type 0
Distinct [] = Unit {0}
Distinct (x ∷ xs) = (mem x xs ≡ false) × Distinct xs

-- From `a` through `xs` to `b`, both ways.
abbrev pub Chain : Links → ℕ → List ℕ → ℕ → Type 0
Chain h a [] b = (h.next a ≡ b) × (h.prev b ≡ a)
Chain h a (x ∷ xs) b = (h.next a ≡ x) × (h.prev x ≡ a) × Chain h x xs b

pub record IsList (h : Links) (head : ℕ) (xs : List ℕ) : Type 0 where
  pub chain : Chain h head xs head
  pub head_out : mem head xs ≡ false
  pub distinct : Distinct xs

-- A chain depends on the `next` fields of `a ∷ xs` and the `prev` fields of `xs` and `b` only.
pub Chain-congr :
    (h g : Links) (a : ℕ) (xs : List ℕ) (b : ℕ)
    → ((p : ℕ) → mem p (a ∷ xs) ≡ true → g.next p ≡ h.next p)
    → ((p : ℕ) → (mem p xs ≡ true) ⊎ (p ≡ b) → g.prev p ≡ h.prev p)
    → Chain h a xs b
    → Chain g a xs b
Chain-congr h g a [] b n p c = ground (arith, n a, p b)
Chain-congr h g a (x ∷ xs) b n p (e, e', c) = (
  ground (arith, n a),
  ground (arith, p x),
  Chain-congr h g x xs b (λ q m. ground (arith, n q)) (λ q m. ground (arith, p q)) c,
)

-- The entry before the end is the last one, or the start.
pub mem-prev :
    (h : Links) (a : ℕ) (xs : List ℕ) (b : ℕ) → Chain h a xs b → mem (h.prev b) (a ∷ xs) ≡ true
mem-prev h a [] b c = ground arith
mem-prev h a (x ∷ xs) b (e, e', c) = ground (arith, mem-prev h x xs b c)

pub mem-append : (p : ℕ) (xs ys : List ℕ) → mem p (xs ++ ys) ≡ (mem p xs || mem p ys)
mem-append p [] ys = refl
mem-append p (x ∷ xs) ys = ground (arith, mem-append p xs ys)

pub Distinct-snoc : (xs : List ℕ) (e : ℕ) → Distinct xs → mem e xs ≡ false → Distinct (xs ++ e ∷ [])
Distinct-snoc [] e d out = (refl, tt)
Distinct-snoc (x ∷ xs) e (o, d) out =
    (ground (arith, mem-append x xs (e ∷ [])), Distinct-snoc xs e d (ground arith))

-- The links of all structures but those in `ps` are as before.
abbrev pub SameOutside : List ℕ → Links → Links → Type 0
SameOutside ps h g = (p : ℕ) → mem p ps ≡ false → (g.next p ≡ h.next p) × (g.prev p ≡ h.prev p)
