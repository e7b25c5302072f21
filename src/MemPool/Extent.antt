-- ===== src/MemPool/Extent.antt =====
-- Whether the memory that the pool hands out has room for what is asked, and lies in its storage.
use umtp.Base.{
  ℕ, ◌+◌, ◌-◌, ◌*◌, ◌/◌, ◌%◌, ◌≤◌, ◌<◌, ◌≡◌, ◌⊎◌, inl, inr, sym, ap, ap₂, ◌∙◌, Bool, true, false,
  some, arith, ltb, leb, ◌==◌, if◌then◌else◌, mul32, u32_mod, Bool-cases, ==_ne,
}
use native.Mathlib.Nat.{
  mul-le-mul_right, mul-lt-mul_of_pos_right, mod-lt, mod-eq_of_lt, div-le_self, div-add-mod,
}
use native.Mathlib.Decide.{ℕ_discrete}
use umtp.Errno.{Errno}
use umtp.MemPool.{
  u64_mod, MemoryPool, Descs, desc_size, align_size, extra_block, block_cnt, memory_pool_malloc,
  allocated,
}
use umtp.MemPool.Align.{align_size-bounds, no_wrap, self-mod}
use umtp.MemPool.Blocks.{IsValid, block_at, take_blocks-cases, extra_small}

-- What `align` adds to a size.
align_size-slack :
    (size blk_size : ℕ)
    → 0 < size
    → 0 < blk_size
    → size + blk_size < u64_mod
    → align_size size blk_size
      ≡ size + (if size % blk_size == 0 then 0 else blk_size - size % blk_size)
unfolding align_size
align_size-slack size blk_size pos pos' fits = elim (Bool-cases (leb size blk_size)) [
  | inl small ↦ elim (ℕ_discrete size blk_size) [
    | yes e ↦ rw (small, ap (λ n. n % blk_size) e ∙ self-mod blk_size) (omega (arith, e))
    | no ne ↦
        let same : size % blk_size ≡ size = mod-eq_of_lt (ground arith) in
        rw (small, same, ==_ne size 0 (omega arith)) (ground arith)
  ]
  | inr large ↦ elim (Bool-cases (size % blk_size == 0)) [
    | inl e ↦ rw (large, e) (omega arith)
    | inr e ↦ rw (large, e) (no_wrap size blk_size pos' fits)
  ]
]

-- The blocks that hold the aligned size.
pub block_cnt-align :
    (p : MemoryPool) (size : ℕ)
    → 0 < p.blk_size
    → size + p.blk_size < u32_mod
    → block_cnt p size * p.blk_size ≡ align_size size p.blk_size
block_cnt-align p size pos fits =
    let size' : ℕ = align_size size p.blk_size in
    let (whole, more, least, close) = align_size-bounds size p.blk_size pos (omega arith) in
    let small : size' / p.blk_size < u32_mod = omega (arith, close, div-le_self size' p.blk_size) in
    let same : block_cnt p size ≡ size' / p.blk_size = omega (arith, small) in
    ap (λ k. k * p.blk_size) same ∙ grind (arith, div-add-mod size' p.blk_size, whole)

-- The three outcomes of `memory_pool_malloc`, read for the one that hands out: the pointer, and the
-- number of blocks that is written before it.
malloc-allocated :
    (e : Errno) (p p' : MemoryPool) (descs descs' : Descs) (size ptr : ℕ)
    → IsValid p
    → memory_pool_malloc e (some p) descs size ≡ allocated ptr p' descs'
    → (ptr ≡ block_at p.memblk + desc_size)
      × (descs' (ptr - desc_size) ≡ block_cnt p size + extra_block size p.blk_size)
unfolding memory_pool_malloc
malloc-allocated e p p' descs descs' size ptr v got =
    elim (take_blocks-cases e p descs (block_cnt p size) (extra_block size p.blk_size) v
      (omega arith) (extra_small size p.blk_size)) [
        | inl (none_free, faults) ↦ cc
        | inr (inl (few, fails)) ↦ cc
        | inr (inr (enough, descs'', got', desc, others)) ↦
            let same_ptr : block_at p.memblk + desc_size ≡ ptr = cc in
            let same_descs : descs'' ≡ descs' = cc in
            (sym same_ptr, ap₂ (λ d a. d (a - desc_size)) (sym same_descs) (sym same_ptr) ∙ desc)
      ]

-- The bytes of the blocks that are counted.
blocks-bytes :
    (p : MemoryPool) (size : ℕ)
    → 0 < size
    → 0 < p.blk_size
    → size + p.blk_size < u32_mod
    → (block_cnt p size + extra_block size p.blk_size) * p.blk_size
      ≡ size
        + (if size % p.blk_size == 0 then 0 else p.blk_size - size % p.blk_size)
        + (if ltb desc_size (size % p.blk_size) then 0 else p.blk_size)
unfolding extra_block
blocks-bytes p size pos pos' fits =
    let cnt : ℕ = block_cnt p size in
    distributed cnt p.blk_size (ltb desc_size (size % p.blk_size))
    ∙ ap (λ a. a + (if ltb desc_size (size % p.blk_size) then 0 else p.blk_size))
        (block_cnt-align p size pos' fits ∙ align_size-slack size p.blk_size pos pos' (omega arith))
  where
    distributed :
        (cnt blk_size : ℕ) (b : Bool)
        → (cnt + (if b then 0 else 1)) * blk_size ≡ cnt * blk_size + (if b then 0 else blk_size)
    distributed cnt blk_size true = grind arith
    distributed cnt blk_size false = grind arith

enough_bytes :
    (blk_size size r bytes : ℕ)
    → desc_size ≤ blk_size - r
    → bytes
      ≡ size + (if r == 0 then 0 else blk_size - r) + (if ltb desc_size r then 0 else blk_size)
    → desc_size + size ≤ bytes
enough_bytes blk_size size r bytes leaves total = ground arith

-- The blocks have room for their count and for what was asked for, if that leaves room for a count in
-- its last block.
pub blocks-room :
    (p : MemoryPool) (size : ℕ)
    → 0 < size
    → 0 < p.blk_size
    → size + p.blk_size < u32_mod
    → desc_size ≤ p.blk_size - size % p.blk_size
    → desc_size + size ≤ (block_cnt p size + extra_block size p.blk_size) * p.blk_size
blocks-room p size pos pos' fits leaves =
    enough_bytes p.blk_size size (size % p.blk_size) _ leaves (blocks-bytes p size pos pos' fits)

room-cases :
    (blk_size size ptr r bytes : ℕ)
    → r < blk_size
    → 2 * desc_size ≤ blk_size
    → desc_size ≤ ptr
    → bytes
      ≡ size + (if r == 0 then 0 else blk_size - r) + (if ltb desc_size r then 0 else blk_size)
    → ((desc_size ≤ blk_size - r) × (ptr + size ≤ ptr - desc_size + bytes))
      ⊎ ((blk_size - r < desc_size) × (ptr - desc_size + bytes < ptr + size))
room-cases blk_size size ptr r bytes lt large le total = ground arith

-- `memory_pool_malloc` of a pool whose counts are right, with blocks of at least 32 bytes, and a size
-- so small that no sum wraps: the blocks that it counts before the pointer have room for the sixteen
-- bytes of the count and for the size asked, if what the size leaves of its last block is at least
-- sixteen bytes; if it leaves less, what is asked reaches behind them.
pub malloc-room :
    (e : Errno) (p p' : MemoryPool) (descs descs' : Descs) (size ptr : ℕ)
    → IsValid p
    → 0 < size
    → 2 * desc_size ≤ p.blk_size
    → size + p.blk_size < u32_mod
    → memory_pool_malloc e (some p) descs size ≡ allocated ptr p' descs'
    → let rest = p.blk_size - size % p.blk_size in
      let end = ptr - desc_size + descs' (ptr - desc_size) * p.blk_size in
      ((desc_size ≤ rest) × (ptr + size ≤ end)) ⊎ ((rest < desc_size) × (end < ptr + size))
malloc-room e p p' descs descs' size ptr v pos large fits got =
    let (at, count) = malloc-allocated e p p' descs descs' size ptr v got in
    let bytes = blocks-bytes p size pos (omega arith) fits in
    let total : descs' (ptr - desc_size) * p.blk_size
        ≡ size
          + (if size % p.blk_size == 0 then 0 else p.blk_size - size % p.blk_size)
          + (if ltb desc_size (size % p.blk_size) then 0 else p.blk_size) =
      ap (λ n. n * p.blk_size) count ∙ bytes in
    room-cases p.blk_size size ptr (size % p.blk_size) (descs' (ptr - desc_size) * p.blk_size)
      (mod-lt size {m = p.blk_size} (omega arith)) large (omega (arith, at)) total

inside-cases :
    (k n cnt blk_size : ℕ)
    → 0 < blk_size
    → ((k + n ≤ cnt) × (k * blk_size + n * blk_size ≤ cnt * blk_size))
      ⊎ ((cnt < k + n) × (cnt * blk_size < k * blk_size + n * blk_size))
inside-cases k n cnt blk_size pos = elim (Bool-cases (leb (k + n) cnt)) [
  | inl e ↦
      let le : k + n ≤ cnt = ground arith in inl (le, grind (arith, mul-le-mul_right blk_size le))
  | inr e ↦
      let lt : cnt < k + n = ground arith in
      inr (lt, grind (arith, mul-lt-mul_of_pos_right {k = blk_size} lt pos))
]

-- `memory_pool_malloc` of a pool whose counts are right, with blocks of at least one byte, and whose
-- storage is less than 2 ^ 32 bytes: the blocks that are handed out lie in the storage if they end
-- before the counter of the blocks wraps around the pool; if they do not, they reach behind the
-- storage's end.
pub malloc-inside :
    (e : Errno) (p p' : MemoryPool) (descs descs' : Descs) (size ptr : ℕ)
    → IsValid p
    → 0 < p.blk_size
    → 0 < p.blk_cnt
    → p.memblk.count ≡ p.blk_cnt
    → p.memblk.per_size ≡ p.blk_size
    → p.blk_cnt * p.blk_size < u32_mod
    → memory_pool_malloc e (some p) descs size ≡ allocated ptr p' descs'
    → let n = descs' (ptr - desc_size) in
      let first = p.memblk.tail % p.blk_cnt in
      let end = p.start + p.blk_cnt * p.blk_size in
      ((first + n ≤ p.blk_cnt) × (ptr - desc_size + n * p.blk_size ≤ end))
      ⊎ ((p.blk_cnt < first + n) × (end < ptr - desc_size + n * p.blk_size))
malloc-inside e p p' descs descs' size ptr v pos some_blocks count per_size whole got =
    let (at, recorded) = malloc-allocated e p p' descs descs' size ptr v got in
    let first : ℕ = p.memblk.tail % p.blk_cnt in
    let inside : first < p.blk_cnt = mod-lt p.memblk.tail {m = p.blk_cnt} some_blocks in
    let no_wrap : first * p.blk_size ≤ p.blk_cnt * p.blk_size =
      mul-le-mul_right p.blk_size (omega (arith, inside)) in
    let block : p.memblk.buffer + mul32 (p.memblk.tail % p.memblk.count) p.memblk.per_size
        ≡ p.start + first * p.blk_size =
      ap₂ (λ c s. p.memblk.buffer + mul32 (p.memblk.tail % c) s) count per_size
      ∙ omega (arith, no_wrap, whole, v.base) in
    elim (inside-cases first (descs' (ptr - desc_size)) p.blk_cnt p.blk_size pos) [
      | inl (fits, le) ↦ inl (fits, omega (arith, at, block, le))
      | inr (over, lt) ↦ inr (over, omega (arith, at, block, lt))
    ]
