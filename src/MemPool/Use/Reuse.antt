-- ===== src/MemPool/Use/Reuse.antt =====
-- A pool that is not used in order: what is freed is handed out elsewhere.

use umtp.Base.{
  ltb, false, sub32, ℕ, ◌+◌, ◌-◌, ◌*◌, ◌%◌, ◌≤◌, ◌<◌, ◌≡◌, inl, inr, refl, ap, ◌∙◌, some, List, [],
  ◌∷◌, ◌++◌, arith, add32, u32_mod,
}
use umtp.Errno.{Errno}
use umtp.MemPool.{
  MemoryPool, Descs, desc_size, memory_block_count, memory_block_put, extra_block, block_cnt,
  memory_pool_malloc, memory_pool_free, allocated,
}
use umtp.MemPool.Blocks.{IsValid, free_blocks, block_at, handed, take_blocks-cases, extra_small}
use umtp.MemPool.Live.{Placed, Runs-Placed, Allocation, blocks_of, block_addr, Runs}
use umtp.MemPool.Use.{
  measures_of, Use, Reach, Counted, Measures, IsSound, InOrder, block_at-addr, turn,
}
use umtp.MemPool.{memory_pool_create}
use umtp.MemPool.Use.Order.{created-IsSound, created-InOrder, Reach-InOrder}
use umtp.MemPool.Live.{All-middle, blocks-le, Runs-above}
use native.Mathlib.Nat.{add-mod_right}

module _ (e : Errno) (m : Measures) (s : IsSound m) (u : Use) (o : InOrder m u) (a b : Allocation)
    (xs ys : List Allocation) (live : u.live ≡ a ∷ xs ++ b ∷ ys)
    (full : free_blocks u.pool ≡ 0) where
  -- The pool after `b` was freed.
  abbrev freed : MemoryPool
  freed = record u.pool {
    memblk = record u.pool.memblk { head = add32 u.pool.memblk.head b.blocks };
    blk_used = sub32 u.pool.blk_used b.blocks;
    ref_count = sub32 u.pool.ref_count 1;
  }

  recorded : u.descs (b.ptr - desc_size) ≡ b.blocks
  recorded = All-middle (Counted u.descs) (a ∷ xs) b ys (rw live at o.counted)

  placed : Runs m.start m.cnt m.blk_size o.t (a ∷ xs ++ b ∷ ys) o.t'
  placed = rw live at o.runs

  free-freed : memory_pool_free (some u.pool) u.descs (some b.ptr) ≡ some freed
  unfolding memory_pool_free memory_block_put
  free-freed = rw (not_below, recorded) refl
    where
      not_below : ltb b.ptr u.pool.start ≡ false
      not_below = ground (
        arith,
        All-middle (λ c. m.start ≤ c.ptr) (a ∷ xs) b ys
            (Runs-above m.start m.cnt m.blk_size o.t (a ∷ xs ++ b ∷ ys) o.t' placed),
        o.measures.start_is,
      )

  freed-IsValid : IsValid freed × (free_blocks freed ≡ b.blocks)
  unfolding memory_block_count
  freed-IsValid =
      omega (arith, o.valid, o.used_is, full, ap blocks_of live, blocks-le (a ∷ xs) b ys)

  next_ptr : block_at u.pool.memblk + desc_size ≡ a.ptr
  next_ptr =
      omega (arith, block_at-addr m s u.pool o.t' o.valid o.measures o.tail_is, placed.0, same)
    where
      around : o.t' ≡ o.t + m.cnt
      around = omega (arith, turn m s u o, full)

      same : block_addr m.start m.cnt m.blk_size o.t' ≡ block_addr m.start m.cnt m.blk_size o.t
      same =
          ap (λ n. m.start + n * m.blk_size) (ap (λ n. n % m.cnt) around ∙ add-mod_right o.t m.cnt)

  malloc-freed :
      (size : ℕ)
      → block_cnt u.pool size + extra_block size u.pool.blk_size ≤ b.blocks
      → (p2 : MemoryPool) × (descs2 : Descs) × (memory_pool_malloc e (some freed) u.descs size
          ≡ allocated a.ptr p2 descs2)
  unfolding memory_pool_malloc
  malloc-freed size fits =
      elim (take_blocks-cases e freed u.descs (block_cnt u.pool size)
        (extra_block size u.pool.blk_size) freed-IsValid.0 (omega arith)
        (extra_small size u.pool.blk_size)) [
          | inl (none_free, faults) ↦ absurd (omega (arith, freed-IsValid.1, b_pos, none_free))
          | inr (inl (few, fails)) ↦ absurd (omega (arith, freed-IsValid.1, few))
          | inr (inr (enough, descs2, got, desc, others)) ↦ (
            handed freed (add32 (block_cnt u.pool size) (extra_block size u.pool.blk_size)),
            descs2,
            rw (← next_ptr) got,
          )
        ]
    where
      b_pos : 0 < b.blocks
      b_pos =
          (All-middle Placed (a ∷ xs) b ys
            (Runs-Placed m.start m.cnt m.blk_size o.t (a ∷ xs ++ b ∷ ys) o.t' placed)).1

module _ (e : Errno) (pool start total_size mem_blk_size flag : ℕ) (p : MemoryPool)
    (made : memory_pool_create (some pool) (some start) total_size mem_blk_size flag ≡ some p)
    (some_blocks : 0 < p.blk_cnt) (even : u32_mod % p.blk_cnt ≡ 0) (small : p.total_size < u32_mod)
    (small' : mem_blk_size < u32_mod) (descs : Descs) where
  -- On a pool that `memory_pool_create` made, with at least one block, a number of blocks that divides
  -- 2 ^ 32, and less than 2 ^ 32 bytes, once it was used in order, for sizes that leave at least sixteen
  -- bytes of their last block, until no block is free: `memory_pool_free` of an allocation that is
  -- not the oldest one makes the next `memory_pool_malloc` that needs no more blocks return the
  -- pointer of the oldest one, which is still in use.
  pub free-reuse :
      (u : Use) (a b : Allocation) (xs ys : List Allocation) (size : ℕ)
      → Reach e (record { pool = p; descs = descs; live = [] }) u
      → u.live ≡ a ∷ xs ++ b ∷ ys
      → free_blocks u.pool ≡ 0
      → block_cnt u.pool size + extra_block size u.pool.blk_size ≤ b.blocks
      → (p1 : MemoryPool) × (p2 : MemoryPool) × (descs2 : Descs) × (memory_pool_free
            (some u.pool)
            u.descs
            (some b.ptr)
          ≡ some p1)
        × (memory_pool_malloc e (some p1) u.descs size ≡ allocated a.ptr p2 descs2)
  free-reuse u a b xs ys size r live full fits =
      let m : Measures = measures_of p in
      let s =
        created-IsSound pool start total_size mem_blk_size flag p made some_blocks even small
          small' in
      let init =
        created-InOrder pool start total_size mem_blk_size flag p made some_blocks even small small'
          descs in
      let o = Reach-InOrder m s init r in
      let (p2, descs2, got) = malloc-freed e m s u o a b xs ys live full size fits in
      (
        freed e m s u o a b xs ys live full,
        p2,
        descs2,
        free-freed e m s u o a b xs ys live full,
        got,
      )
