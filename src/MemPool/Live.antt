-- ===== src/MemPool/Live.antt =====
-- The allocations of a pool that are in use, the one made first before the others, and where their
-- blocks lie if they are handed out in turn.
use native.Mathlib.Nat.{mod-lt, mod-eq_of_lt, mod-add-mod, mod-eq-sub-mod, mul-le-mul_right}
use umtp.Base.{
  ℕ, ◌+◌, ◌-◌, ◌*◌, ◌%◌, ◌≤◌, ◌<◌, ◌≡◌, ◌⊎◌, inl, inr, ap, ◌∙◌, List, [], ◌∷◌, ◌++◌, arith, leb,
  Bool-cases,
}
use umtp.MemPool.{desc_size}

-- What the program that uses the pool knows of an allocation: the size that it asked for and the
-- pointer, and for the theorems the number of blocks.
pub record Allocation : Type 0 where
  pub ptr : ℕ
  pub size : ℕ
  pub blocks : ℕ

abbrev pub blocks_of : List Allocation → ℕ
blocks_of [] = 0
blocks_of (a ∷ xs) = a.blocks + blocks_of xs

abbrev pub All : (Allocation → Type 0) → List Allocation → Type 0
All P [] = Unit {0}
All P (a ∷ xs) = P a × All P xs

pub All-middle :
    (P : Allocation → Type 0) (xs : List Allocation) (a : Allocation) (ys : List Allocation)
    → All P (xs ++ a ∷ ys)
    → P a
All-middle P [] a ys h = h.0
All-middle P (x ∷ xs) a ys h = All-middle P xs a ys h.1

pub blocks-le :
    (xs : List Allocation) (a : Allocation) (ys : List Allocation)
    → a.blocks ≤ blocks_of (xs ++ a ∷ ys)
blocks-le [] a ys = omega arith
blocks-le (x ∷ xs) a ys = omega (arith, blocks-le xs a ys)

pub All-append :
    (P : Allocation → Type 0) (xs ys : List Allocation) → All P xs → All P ys → All P (xs ++ ys)
All-append P [] ys h h' = h'
All-append P (x ∷ xs) ys h h' = (h.0, All-append P xs ys h.1 h')

pub All-map :
    (P Q : Allocation → Type 0) (xs : List Allocation)
    → ((a : Allocation) → P a → Q a)
    → All P xs
    → All Q xs
All-map P Q [] f h = tt
All-map P Q (x ∷ xs) f h = (f x h.0, All-map P Q xs f h.1)

pub All-zip :
    (P Q : Allocation → Type 0) (xs : List Allocation)
    → All P xs
    → All Q xs
    → All (λ a. P a × Q a) xs
All-zip P Q [] h h' = tt
All-zip P Q (x ∷ xs) h h' = ((h.0, h'.0), All-zip P Q xs h.1 h'.1)

-- The addresses from the count on to the end of the last block.
abbrev pub first_byte : Allocation → ℕ
first_byte a = a.ptr - desc_size

abbrev pub end_byte : ℕ → Allocation → ℕ
end_byte blk_size a = a.ptr - desc_size + a.blocks * blk_size

abbrev pub Disjoint : ℕ → Allocation → Allocation → Type 0
Disjoint blk_size a b = (end_byte blk_size a ≤ first_byte b) ⊎ (end_byte blk_size b ≤ first_byte a)

-- No two allocations share a byte.
abbrev pub Apart : ℕ → List Allocation → Type 0
Apart blk_size [] = Unit {0}
Apart blk_size (a ∷ xs) = All (Disjoint blk_size a) xs × Apart blk_size xs

pub Apart-last :
    (blk_size : ℕ) (xs : List Allocation) (a : Allocation)
    → Apart blk_size (xs ++ a ∷ [])
    → All (λ x. Disjoint blk_size x a) xs
Apart-last blk_size [] a p = tt
Apart-last blk_size (x ∷ xs) a p = (last xs p.0, Apart-last blk_size xs a p.1)
  where
    last : (ys : List Allocation) → All (Disjoint blk_size x) (ys ++ a ∷ []) → Disjoint blk_size x a
    last [] h = h.0
    last (y ∷ ys) h = last ys h.1

-- Where the block with the number `t` lies, counted from the pool's creation on.
abbrev pub block_addr : (start cnt blk_size t : ℕ) → ℕ
block_addr start cnt blk_size t = start + t % cnt * blk_size

-- The allocations take the blocks from number `t` up to `t'`, one after the other.
abbrev pub Runs : (start cnt blk_size t : ℕ) → List Allocation → ℕ → Type 0
Runs start cnt blk_size t [] t' = t ≡ t'
Runs start cnt blk_size t (a ∷ xs) t' =
    (a.ptr ≡ block_addr start cnt blk_size t + desc_size)
    × (0 < a.blocks)
    × Runs start cnt blk_size (t + a.blocks) xs t'

-- An allocation has a count before its pointer, and at least one block.
abbrev pub Placed : Allocation → Type 0
Placed a = (desc_size ≤ a.ptr) × (0 < a.blocks)

module _ (start cnt blk_size : ℕ) where
  pub Runs-Placed :
      (t : ℕ) (xs : List Allocation) (t' : ℕ) → Runs start cnt blk_size t xs t' → All Placed xs
  Runs-Placed t [] t' r = tt
  Runs-Placed t (a ∷ xs) t' r = ((omega (arith, r.0), r.1), Runs-Placed (t + a.blocks) xs t' r.2)

  pub Runs-above :
      (t : ℕ) (xs : List Allocation) (t' : ℕ)
      → Runs start cnt blk_size t xs t'
      → All (λ a. start ≤ a.ptr) xs
  Runs-above t [] t' r = tt
  Runs-above t (a ∷ xs) t' r = (omega (arith, r.0), Runs-above (t + a.blocks) xs t' r.2)

  pub Runs-length :
      (t : ℕ) (xs : List Allocation) (t' : ℕ)
      → Runs start cnt blk_size t xs t'
      → t + blocks_of xs ≡ t'
  Runs-length t [] t' r = omega arith
  Runs-length t (a ∷ xs) t' r = omega (arith, Runs-length (t + a.blocks) xs t' r.2)

  pub Runs-snoc :
      (t : ℕ) (xs : List Allocation) (t' : ℕ) (a : Allocation)
      → Runs start cnt blk_size t xs t'
      → a.ptr ≡ block_addr start cnt blk_size t' + desc_size
      → 0 < a.blocks
      → Runs start cnt blk_size t (xs ++ a ∷ []) (t' + a.blocks)
  Runs-snoc t [] t' a r at pos =
      (at ∙ ap (λ n. block_addr start cnt blk_size n + desc_size) (omega arith), pos, omega arith)
  Runs-snoc t (b ∷ xs) t' a r at pos = (r.0, r.1, Runs-snoc (t + b.blocks) xs t' a r.2 at pos)

-- Fewer than `cnt` blocks further, around the end.
turn_cases :
    (cnt t d : ℕ)
    → d < cnt
    → (((t + d) % cnt ≡ t % cnt + d) × (t % cnt + d < cnt))
      ⊎ (((t + d) % cnt + cnt ≡ t % cnt + d) × (cnt ≤ t % cnt + d))
turn_cases cnt t d lt = elim (Bool-cases (leb cnt (t % cnt + d))) [
  | inr e ↦
      let small : t % cnt + d < cnt = ground arith in
      inl (omega (arith, mod-add-mod t cnt d, mod-eq_of_lt small), small)
  | inl e ↦
      let large : cnt ≤ t % cnt + d = ground arith in
      let rest : t % cnt + d - cnt < cnt = omega (arith, mod-lt t {m = cnt} (omega arith)) in
      inr (omega (arith, mod-add-mod t cnt d, mod-eq-sub-mod large, mod-eq_of_lt rest), large)
]

-- Two runs of blocks within one turn around the pool share no block.
pub turn-Disjoint :
    (start cnt blk_size t t' n n' : ℕ)
    → t + n ≤ t'
    → t' + n' ≤ t + cnt
    → 0 < n'
    → (block_addr start cnt blk_size t + n * blk_size ≤ block_addr start cnt blk_size t')
      ⊎ (block_addr start cnt blk_size t' + n' * blk_size ≤ block_addr start cnt blk_size t)
turn-Disjoint start cnt blk_size t t' n n' le le' pos =
    let same : t + (t' - t) ≡ t' = omega arith in
    elim (turn_cases cnt t (t' - t) (omega arith)) [
      | inl (e, lt) ↦
          let before : t % cnt + n ≤ t' % cnt = omega (arith, ap (λ m. m % cnt) same) in
          inl (grind (arith, mul-le-mul_right blk_size before))
      | inr (e, large) ↦
          let after : t' % cnt + n' ≤ t % cnt = omega (arith, ap (λ m. m % cnt) same) in
          inr (grind (arith, mul-le-mul_right blk_size after))
    ]

module _ (start cnt blk_size : ℕ) where
  -- An allocation that begins at block `t`, and those behind it.
  Runs-Disjoint :
      (a : Allocation) (t u : ℕ) (xs : List Allocation) (t' : ℕ)
      → a.ptr ≡ block_addr start cnt blk_size t + desc_size
      → t + a.blocks ≤ u
      → Runs start cnt blk_size u xs t'
      → t' ≤ t + cnt
      → All (Disjoint blk_size a) xs
  Runs-Disjoint a t u [] t' at le r turn = tt
  Runs-Disjoint a t u (b ∷ xs) t' at le r turn =
      let more = Runs-length start cnt blk_size (u + b.blocks) xs t' r.2 in
      let one = turn-Disjoint start cnt blk_size t u a.blocks b.blocks le (omega arith) r.1 in
      (ground arith, Runs-Disjoint a t (u + b.blocks) xs t' at (omega arith) r.2 turn)

  -- Allocations within one turn around the pool share no byte.
  pub Runs-Apart :
      (t : ℕ) (xs : List Allocation) (t' : ℕ)
      → Runs start cnt blk_size t xs t'
      → t' ≤ t + cnt
      → Apart blk_size xs
  Runs-Apart t [] t' r turn = tt
  Runs-Apart t (a ∷ xs) t' r turn = (
    Runs-Disjoint a t (t + a.blocks) xs t' r.0 (omega arith) r.2 turn,
    Runs-Apart (t + a.blocks) xs t' r.2 (omega arith),
  )
