-- ===== src/MemPool/Blocks.antt =====
-- How many blocks of a pool are free and in use.
use umtp.Base.{
  ℕ, ◌+◌, ◌-◌, ◌≤◌, ◌<◌, ◌≡◌, ◌≢◌, ◌⊎◌, inl, inr, refl, sym, ap, ◌∙◌, true, false, none, some,
  arith, ltb, leb, ◌==◌, if◌then◌else◌, ◌%◌, add32, sub32, mul32, u32_mod, Bool-cases, ==_ne,
}
use native.Mathlib.Decide.{ℕ_discrete}
use umtp.Errno.{Errno}
use umtp.MemPool.{
  MemoryBlocks, MemoryPool, Descs, desc_size, memory_block_count, memory_block_empty,
  memory_block_get, memory_block_put, extra_block, block_cnt, hand_out, take_blocks, failed,
  allocated, fault, memory_pool_malloc, memory_pool_free,
}

-- The free blocks and the blocks in use are all blocks.
pub record IsValid (p : MemoryPool) : Type 0 where
  pub head_word : p.memblk.head < u32_mod
  pub tail_word : p.memblk.tail < u32_mod
  pub used_word : p.blk_used < u32_mod
  pub ref_word : p.ref_count < u32_mod
  pub cnt_word : p.blk_cnt < u32_mod
  pub base : p.start ≡ p.memblk.buffer
  pub balance : memory_block_count p.memblk + p.blk_used ≡ p.blk_cnt

abbrev pub free_blocks : MemoryPool → ℕ
free_blocks p = memory_block_count p.memblk

-- The pool after `n` blocks were handed out.
abbrev pub handed : MemoryPool → ℕ → MemoryPool
handed p n = record p {
  ref_count = add32 p.ref_count 1;
  blk_used = add32 p.blk_used n;
  memblk = record p.memblk { tail = add32 p.memblk.tail n };
}

pub handed-IsValid :
    (p : MemoryPool) (n : ℕ)
    → IsValid p
    → n ≤ free_blocks p
    → IsValid (handed p n) × (free_blocks (handed p n) + n ≡ free_blocks p)
unfolding memory_block_count
handed-IsValid p n v fits = omega (arith, v)

get-none : (m : MemoryBlocks) (k : ℕ) → memory_block_count m ≡ 0 → memory_block_get m k ≡ (none, m)
unfolding memory_block_get memory_block_empty
get-none m k e = rw e refl

abbrev pub block_at : MemoryBlocks → ℕ
block_at m = m.buffer + mul32 (m.tail % m.count) m.per_size

get-some :
    (m : MemoryBlocks) (k : ℕ)
    → memory_block_count m ≢ 0
    → memory_block_get m k ≡ (some (block_at m), record m { tail = add32 m.tail k })
unfolding memory_block_get memory_block_empty
get-some m k ne = rw (==_ne (memory_block_count m) 0 ne) refl

-- The three outcomes for `cnt` blocks and `extra` more.
pub take_blocks-cases :
    (e : Errno) (p : MemoryPool) (descs : Descs) (cnt extra : ℕ)
    → IsValid p
    → cnt < u32_mod
    → extra ≤ 1
    → ((free_blocks p ≡ 0) × (take_blocks e p descs cnt extra ≡ fault))
      ⊎ (((free_blocks p < cnt + extra) × (take_blocks e p descs cnt extra ≡ failed e.enomem))
          ⊎ ((cnt + extra ≤ free_blocks p)
              × (descs' : Descs) × (take_blocks e p descs cnt extra
                  ≡ allocated (block_at p.memblk + desc_size) (handed p (add32 cnt extra)) descs')
              × (descs' (block_at p.memblk + desc_size - desc_size) ≡ cnt + extra)
              × ((a : ℕ) → a ≢ block_at p.memblk → descs' a ≡ descs a)))
unfolding take_blocks hand_out
take_blocks-cases e p descs cnt extra v small le =
    elim (Bool-cases (leb cnt (sub32 (free_blocks p) extra))) [
      | inr more ↦ inr (inl (ground arith, rw more refl))
      | inl fits ↦ elim (ℕ_discrete (free_blocks p) 0) [
        | yes e ↦ inl (
          e,
          rw fits (ap (hand_out p descs (add32 cnt extra)) (get-none p.memblk (add32 cnt extra) e)),
        )
        | no ne ↦ inr (
            inr (
              ground arith,
              (λ a. if a == block_at p.memblk then add32 cnt extra else descs a),
              rw fits (
                  ap (hand_out p descs (add32 cnt extra)) (get-some p.memblk (add32 cnt extra) ne)),
              ground arith,
              λ a ne. ground arith,
            ))
      ]
    ]

pub extra_small : (size blk_size : ℕ) → extra_block size blk_size ≤ 1
unfolding extra_block
extra_small size blk_size = ground arith

pub no_wrap : (p : MemoryPool) (n : ℕ) → n ≤ free_blocks p → n < u32_mod
unfolding memory_block_count
no_wrap p n fits = omega arith

-- The counts of `q` are those of `p`.
abbrev pub SameCounts : MemoryPool → MemoryPool → Type 0
SameCounts p q =
    (free_blocks q ≡ free_blocks p) × (q.blk_used ≡ p.blk_used) × (q.ref_count ≡ p.ref_count)

free-handed :
    (p : MemoryPool) (n : ℕ) (descs : Descs)
    → IsValid p
    → n ≤ free_blocks p
    → descs (block_at p.memblk + desc_size - desc_size) ≡ n
    → (q : MemoryPool) × (memory_pool_free
          (some (handed p n))
          descs
          (some (block_at p.memblk + desc_size))
        ≡ some q)
      × IsValid q
      × SameCounts p q
unfolding memory_pool_free memory_block_put memory_block_count
free-handed p n descs v fits e = (
  record (handed p n) {
    memblk = record p.memblk { head = add32 p.memblk.head n; tail = add32 p.memblk.tail n };
    blk_used = sub32 (add32 p.blk_used n) n;
    ref_count = sub32 (add32 p.ref_count 1) 1;
  },
  rw (not_below, e) refl,
  omega (arith, v),
  omega (arith, v),
)
  where
    not_below : ltb (block_at p.memblk + desc_size) p.start ≡ false
    not_below = ground (arith, v.base)

-- `memory_pool_malloc` of a pool whose counts are right has three outcomes. With no free block it may
-- write through NULL; with fewer free blocks than the size needs, the one for the count included, it
-- fails with ENOMEM; else it hands out that many blocks, the counts stay right, and `memory_pool_free`
-- of the pointer at once gives the counts back.
pub malloc-IsValid :
    (e : Errno) (p : MemoryPool) (descs : Descs) (size : ℕ)
    → IsValid p
    → let n = block_cnt p size + extra_block size p.blk_size in
      ((free_blocks p ≡ 0) × (memory_pool_malloc e (some p) descs size ≡ fault))
      ⊎ (((free_blocks p < n) × (memory_pool_malloc e (some p) descs size ≡ failed e.enomem))
          ⊎ ((ptr : ℕ) × (p' : MemoryPool) × (descs' : Descs) × (q : MemoryPool)
              × (memory_pool_malloc e (some p) descs size ≡ allocated ptr p' descs')
              × IsValid p'
              × (free_blocks p' + n ≡ free_blocks p)
              × (p'.blk_used ≡ p.blk_used + n)
              × (memory_pool_free (some p') descs' (some ptr) ≡ some q)
              × IsValid q
              × SameCounts p q))
unfolding memory_pool_malloc
malloc-IsValid e p descs size v =
    elim (take_blocks-cases e p descs cnt extra v (omega arith) (extra_small size p.blk_size)) [
      | inl none_free ↦ inl none_free
      | inr (inl few) ↦ inr (inl few)
      | inr (inr (enough, descs', got, desc, others)) ↦
          let small : cnt + extra < u32_mod = no_wrap p (cnt + extra) enough in
          let same : add32 cnt extra ≡ cnt + extra = omega arith in
          let (v', balance) = handed-IsValid p (add32 cnt extra) v (omega arith) in
          let (q, freed, w, counts) =
            free-handed p (add32 cnt extra) descs' v (omega arith) (desc ∙ sym same) in
          inr (
            inr (
              block_at p.memblk + desc_size,
              handed p (add32 cnt extra),
              descs',
              q,
              got,
              v',
              omega arith,
              omega (arith, v),
              freed,
              w,
              counts,
            ))
    ]
  where
    cnt : ℕ
    cnt = block_cnt p size

    extra : ℕ
    extra = extra_block size p.blk_size

-- With no free block, a size that needs an extra one makes `memory_pool_malloc` write through NULL.
pub malloc-fault :
    (e : Errno) (p : MemoryPool) (descs : Descs) (size : ℕ)
    → free_blocks p ≡ 0
    → size % p.blk_size ≤ desc_size
    → memory_pool_malloc e (some p) descs size ≡ fault
unfolding memory_pool_malloc take_blocks extra_block hand_out
malloc-fault e p descs size none_free rest = rw (not_more, none_free, always) refl
  where
    not_more : ltb desc_size (size % p.blk_size) ≡ false
    not_more = ground arith

    always : leb (block_cnt p size) (sub32 0 1) ≡ true
    always = ground arith
