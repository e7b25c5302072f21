-- ===== src/Bytes.antt =====
-- Byte-addressed storage. An address is a number, a byte store maps each address to its byte, and
-- the loops `for (i = 0; i < n; i++) dst[i] = src[i]` of the C files are `copy`.
use umtp.Base.{
  ℕ, zero, suc, ◌+◌, ◌≤◌, ◌<◌, ◌≡◌, ◌⊎◌, refl, List, [], ◌∷◌, ◌==◌, if◌then◌else◌, arith, length,
  ap, ap₂, ◌∙◌,
}

abbrev pub Memory : Type 0
Memory = ℕ → ℕ

abbrev pub store : Memory → ℕ → ℕ → Memory
store m p v a = if a == p then v else m a

-- One byte after the other, upwards; a later round reads what an earlier one wrote.
pub copy : Memory → ℕ → ℕ → ℕ → Memory
copy m dst src zero = m
copy m dst src (suc n) = copy (store m dst (m src)) (dst + 1) (src + 1) n

-- The `n` bytes from address `p` on.
abbrev pub bytes : Memory → ℕ → ℕ → List ℕ
bytes m p zero = []
bytes m p (suc n) = m p ∷ bytes m (p + 1) n

-- Two blocks have no address in common.
abbrev pub Apart : ℕ → ℕ → ℕ → ℕ → Type 0
Apart p n q k = (p + n ≤ q) ⊎ (q + k ≤ p)

pub Apart-sym : (p n q k : ℕ) → Apart p n q k → Apart q k p n
Apart-sym p n q k h = grind arith

pub length-bytes : (m : Memory) (p n : ℕ) → length (bytes m p n) ≡ n
length-bytes m p zero = refl
length-bytes m p (suc n) = ap suc (length-bytes m (p + 1) n)

-- Bytes depend on their own addresses only.
pub bytes-congr :
    (m g : Memory) (p n : ℕ) → ((a : ℕ) → p ≤ a → a < p + n → g a ≡ m a) → bytes g p n ≡ bytes m p n
bytes-congr m g p zero same = refl
bytes-congr m g p (suc n) same =
    ap₂ ◌∷◌ (same p (omega arith) (omega arith))
      (bytes-congr m g (p + 1) n (λ a h k. same a (omega arith) (omega arith)))

-- `copy` writes to its target block only.
pub copy-outside :
    (m : Memory) (dst src n a : ℕ) → (a < dst) ⊎ (dst + n ≤ a) → copy m dst src n a ≡ m a
unfolding copy
copy-outside m dst src zero a out = refl
copy-outside m dst src (suc n) a out =
    ground (arith, copy-outside (store m dst (m src)) (dst + 1) (src + 1) n a)

pub bytes-copy_outside :
    (m : Memory) (dst src n p k : ℕ) → Apart dst n p k → bytes (copy m dst src n) p k ≡ bytes m p k
bytes-copy_outside m dst src n p k apart =
    bytes-congr m (copy m dst src n) p k λ a h l. copy-outside m dst src n a (away a h l)
  where
    away : (a : ℕ) → p ≤ a → a < p + k → (a < dst) ⊎ (dst + n ≤ a)
    away a h l = grind arith

-- Between blocks that do not overlap, `copy` makes the target equal to the source.
pub bytes-copy :
    (m : Memory) (dst src n : ℕ)
    → Apart dst n src n
    → bytes (copy m dst src n) dst n ≡ bytes m src n
unfolding copy
bytes-copy m dst src zero apart = refl
bytes-copy m dst src (suc n) apart =
    ap₂ ◌∷◌ first (bytes-copy m' (dst + 1) (src + 1) n (grind arith) ∙ untouched)
  where
    m' : Memory
    m' = store m dst (m src)

    first : copy m' (dst + 1) (src + 1) n dst ≡ m src
    first = ground (arith, copy-outside m' (dst + 1) (src + 1) n dst)

    untouched : bytes m' (src + 1) n ≡ bytes m (src + 1) n
    untouched = bytes-congr m m' (src + 1) n (λ a h k. ground arith)
