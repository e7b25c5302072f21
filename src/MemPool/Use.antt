-- ===== src/MemPool/Use.antt =====
-- A program that uses a pool and frees its allocations in the order in which it made them.
pub mod Next
pub mod Keep
pub mod Order
pub mod Reuse
mod Tests
use Prim.Native.Nat.{◌∣◌}
use native.Mathlib.Nat.{
  zero-mul, dvd_of_mod-eq-zero, mod-lt, mod-mod_of_dvd, mul-lt-mul_of_pos_right, mul-le-mul_right,
}
use umtp.Base.{
  sub32, zero, suc, ℕ, ◌+◌, ◌-◌, ◌*◌, ◌%◌, ◌≤◌, ◌<◌, ◌≡◌, ◌≢◌, ◌⊎◌, inl, inr, refl, sym, ap, ap₂,
  ◌∙◌, some, List, [], ◌∷◌, ◌++◌, arith, mul32, add32, u32_mod,
}
use umtp.Errno.{Errno}
use umtp.MemPool.{
  MemoryPool, Descs, desc_size, memory_block_count, memory_block_put, extra_block, block_cnt,
  memory_pool_malloc, memory_pool_free, allocated,
}
use umtp.MemPool.Align.{align_size-bounds}
use umtp.MemPool.Extent.{block_cnt-align}
use umtp.MemPool.Blocks.{
  IsValid, free_blocks, block_at, handed, handed-IsValid, take_blocks-cases, extra_small, no_wrap,
}
use umtp.MemPool.Live.{
  All-zip, Apart-last, Placed, Runs-Placed, Allocation, blocks_of, All, All-append, All-map,
  first_byte, end_byte, Disjoint, Apart, block_addr, Runs, Runs-length, Runs-snoc, Runs-Apart,
}

-- A pool, its storage, and the allocations in use, the oldest first.
pub record Use : Type 0 where
  pub pool : MemoryPool
  pub descs : Descs
  pub live : List Allocation

-- The four bytes at `x` are none of those that an allocation was asked for.
abbrev pub Outside : ℕ → Allocation → Type 0
Outside x a = (x + 4 ≤ a.ptr) ⊎ (a.ptr + a.size ≤ x)

-- What was asked for ends in the blocks of the allocation.
abbrev pub Roomy : ℕ → Allocation → Type 0
Roomy blk_size a = a.ptr + a.size ≤ end_byte blk_size a

-- The program allocates a size that leaves at least sixteen bytes of the last block that it fills,
-- frees its oldest allocation, or writes to the bytes that it asked for. Of another size the bytes reach
-- behind the blocks, so that writing them can destroy the count of the next allocation.
pub data Step (e : Errno) : Use → Use → Type 0 where
  malloc :
      (u : Use) (size ptr : ℕ) (p' : MemoryPool) (descs' : Descs)
      → size + u.pool.blk_size < u32_mod
      → desc_size ≤ u.pool.blk_size - size % u.pool.blk_size
      → memory_pool_malloc e (some u.pool) u.descs size ≡ allocated ptr p' descs'
      → Step e u (record {
        pool = p';
        descs = descs';
        live =
            u.live
            ++ (record {
              ptr = ptr;
              size = size;
              blocks = block_cnt u.pool size + extra_block size u.pool.blk_size;
            })
              ∷ [];
      })
  free :
      (p p' : MemoryPool) (descs : Descs) (a : Allocation) (xs : List Allocation)
      → memory_pool_free (some p) descs (some a.ptr) ≡ some p'
      → Step e
          (record { pool = p; descs = descs; live = a ∷ xs })
          (record { pool = p'; descs = descs; live = xs })
  write :
      (u : Use) (descs' : Descs)
      → ((x : ℕ) → All (Outside x) u.live → descs' x ≡ u.descs x)
      → Step e u (record u { descs = descs' })

pub data Reach (e : Errno) (u : Use) : Use → Type 0 where
  here : Reach e u u
  next : {v w : Use} → Reach e u v → Step e v w → Reach e u w

abbrev pub Counted : Descs → Allocation → Type 0
Counted descs a = descs (first_byte a) ≡ a.blocks

-- The measures of a pool, which no operation changes.
pub record Measures : Type 0 where
  pub start : ℕ
  pub cnt : ℕ
  pub blk_size : ℕ

abbrev pub measures_of : MemoryPool → Measures
measures_of p = record { start = p.start; cnt = p.blk_cnt; blk_size = p.blk_size }

-- The count of the blocks divides the range of the 32-bit counters, the blocks have room for a
-- count, and the storage is less than 2 ^ 32 bytes.
pub record IsSound (m : Measures) : Type 0 where
  pub even : u32_mod % m.cnt ≡ 0
  pub some_blocks : 0 < m.cnt
  pub room : desc_size ≤ m.blk_size
  pub whole : m.cnt * m.blk_size < u32_mod

pub record HasMeasures (m : Measures) (p : MemoryPool) : Type 0 where
  pub start_is : p.start ≡ m.start
  pub cnt_is : p.blk_cnt ≡ m.cnt
  pub blk_size_is : p.blk_size ≡ m.blk_size
  pub count_is : p.memblk.count ≡ m.cnt
  pub per_size_is : p.memblk.per_size ≡ m.blk_size

-- The allocations in use take the blocks from number `t` up to `t'`, and the tail counts `t'`.
pub record InOrder (m : Measures) (u : Use) : Type 0 where
  pub valid : IsValid u.pool
  pub measures : HasMeasures m u.pool
  pub t : ℕ
  pub t' : ℕ
  pub tail_is : u.pool.memblk.tail ≡ t' % u32_mod
  pub used_is : u.pool.blk_used ≡ blocks_of u.live
  pub runs : Runs m.start m.cnt m.blk_size t u.live t'
  pub counted : All (Counted u.descs) u.live
  pub roomy : All (Roomy m.blk_size) u.live

-- The next `n` blocks, for `size` bytes.
abbrev pub next_blocks : MemoryPool → (size n : ℕ) → Allocation
next_blocks p size n = record { ptr = block_at p.memblk + desc_size; size = size; blocks = n }

pub blocks_of-snoc :
    (xs : List Allocation) (a : Allocation) → blocks_of (xs ++ a ∷ []) ≡ blocks_of xs + a.blocks
blocks_of-snoc [] a = omega arith
blocks_of-snoc (x ∷ xs) a = omega (arith, blocks_of-snoc xs a)

module _ (m : Measures) (s : IsSound m) where
  dvd : m.cnt ∣ u32_mod
  dvd = dvd_of_mod-eq-zero m.cnt s.even

  pub block_at-addr :
      (p : MemoryPool) (t' : ℕ)
      → IsValid p
      → HasMeasures m p
      → p.memblk.tail ≡ t' % u32_mod
      → block_at p.memblk ≡ block_addr m.start m.cnt m.blk_size t'
  block_at-addr p t' v h tail =
      let inside : t' % m.cnt < m.cnt = mod-lt t' {m = m.cnt} s.some_blocks in
      let fits : t' % m.cnt * m.blk_size ≤ m.cnt * m.blk_size =
        mul-le-mul_right m.blk_size (omega (arith, inside)) in
      let same : p.memblk.tail % p.memblk.count ≡ t' % m.cnt =
        ap₂ (λ a b. a % b) tail h.count_is ∙ mod-mod_of_dvd m.cnt t' dvd in
      omega (arith, fits, v.base, h.start_is, s.whole, ap₂ mul32 same h.per_size_is)

  -- The next blocks are behind those in use, if they are free.
  pub turn : (u : Use) (o : InOrder m u) → o.t' + free_blocks u.pool ≡ o.t + m.cnt
  turn u o = omega (
    arith,
    o.valid.balance,
    o.measures.cnt_is,
    o.used_is,
    Runs-length m.start m.cnt m.blk_size o.t u.live o.t' o.runs,
  )

  pub InOrder-Apart : {u : Use} → InOrder m u → Apart m.blk_size u.live
  InOrder-Apart {u} o =
      Runs-Apart m.start m.cnt m.blk_size o.t u.live o.t' o.runs (omega (arith, turn u o))

  pub handed-HasMeasures : {p : MemoryPool} (n : ℕ) → HasMeasures m p → HasMeasures m (handed p n)
  handed-HasMeasures n h = record {
    start_is = h.start_is;
    cnt_is = h.cnt_is;
    blk_size_is = h.blk_size_is;
    count_is = h.count_is;
    per_size_is = h.per_size_is;
  }

  -- A block holds a count.
  pub block_bytes : (n : ℕ) → 0 < n → desc_size ≤ n * m.blk_size
  block_bytes n pos = omega (arith, mul-le-mul_right m.blk_size pos, s.room)
