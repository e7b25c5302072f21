-- ===== src/MemPool/Use/Next.antt =====
-- An allocation takes the next blocks.

use native.Mathlib.Nat.{zero-mul, mul-le-mul_right}
use native.Mathlib.Decide.{ℕ_discrete}
use umtp.Base.{
  zero, suc, ℕ, ◌+◌, ◌-◌, ◌*◌, ◌%◌, ◌≤◌, ◌<◌, ◌≡◌, ◌≢◌, inl, inr, ◌∙◌, some, List, [], ◌∷◌, ◌++◌,
  arith, add32, u32_mod,
}
use umtp.Errno.{Errno}
use umtp.MemPool.{
  MemoryPool, Descs, desc_size, extra_block, block_cnt, memory_pool_malloc, allocated,
}
use umtp.MemPool.Align.{align_size-bounds}
use umtp.MemPool.Extent.{block_cnt-align, blocks-room}
use umtp.MemPool.Blocks.{
  free_blocks, block_at, handed, handed-IsValid, take_blocks-cases, extra_small, no_wrap,
}
use umtp.MemPool.Live.{
  Apart-last, Placed, Runs-Placed, Allocation, All, All-append, first_byte, Disjoint, Apart, Runs,
  Runs-snoc, Runs-Apart,
}
use umtp.MemPool.Use.{
  Use, Roomy, Counted, Measures, IsSound, InOrder, blocks_of-snoc, next_blocks, block_at-addr, turn,
  handed-HasMeasures, block_bytes,
}

module _ (m : Measures) (s : IsSound m) where
  Disjoint-ne :
      (a b : Allocation)
      → Placed a
      → Placed b
      → Disjoint m.blk_size a b
      → first_byte a ≢ first_byte b
  Disjoint-ne a b pa pb (inl le) eq = omega (arith, block_bytes m s a.blocks pa.1, eq)
  Disjoint-ne a b pa pb (inr le) eq = omega (arith, block_bytes m s b.blocks pb.1, eq)

  -- The counts stay if only the new allocation's is written.
  counts_kept :
      (xs : List Allocation) (b : Allocation) (descs descs' : Descs)
      → All Placed xs
      → Placed b
      → All (λ a. Disjoint m.blk_size a b) xs
      → ((x : ℕ) → x ≢ first_byte b → descs' x ≡ descs x)
      → All (Counted descs) xs
      → All (Counted descs') xs
  counts_kept [] b descs descs' ps pb apart same c = tt
  counts_kept (a ∷ xs) b descs descs' ps pb apart same c = (
    same (first_byte a) (Disjoint-ne a b ps.0 pb apart.0) ∙ c.0,
    counts_kept xs b descs descs' ps.1 pb apart.1 same c.1,
  )

  -- What `n` blocks more make of the allocations in use.
  module _ (u : Use) (o : InOrder m u) (size n : ℕ) (pos : 0 < n) (fits : n ≤ free_blocks u.pool)
      (room : desc_size + size ≤ n * m.blk_size) where
    handed-Runs :
        Runs m.start m.cnt m.blk_size o.t (u.live ++ (next_blocks u.pool size n) ∷ []) (o.t' + n)
    handed-Runs =
        Runs-snoc m.start m.cnt m.blk_size o.t u.live o.t' (next_blocks u.pool size n) o.runs
          (omega (arith, block_at-addr m s u.pool o.t' o.valid o.measures o.tail_is)) pos

    handed-InOrder :
        (descs' : Descs)
        → descs' (block_at u.pool.memblk + desc_size - desc_size) ≡ n
        → ((x : ℕ) → x ≢ block_at u.pool.memblk → descs' x ≡ u.descs x)
        → InOrder m (record {
          pool = handed u.pool n;
          descs = descs';
          live = u.live ++ (next_blocks u.pool size n) ∷ [];
        })
    handed-InOrder descs' got same = record {
      valid = (handed-IsValid u.pool n o.valid fits).0;
      measures = handed-HasMeasures m s n o.measures;
      t = o.t;
      t' = o.t' + n;
      tail_is = omega (arith, o.tail_is);
      used_is = omega (
        arith,
        blocks_of-snoc u.live (next_blocks u.pool size n),
        o.used_is,
        o.valid.balance,
        o.valid,
      );
      runs = handed-Runs;
      counted =
          All-append (Counted descs') u.live (next_blocks u.pool size n ∷ [])
            (counts_kept u.live (next_blocks u.pool size n) u.descs descs'
              (Runs-Placed m.start m.cnt m.blk_size o.t u.live o.t' o.runs) (omega arith, pos)
              (Apart-last m.blk_size u.live (next_blocks u.pool size n) apart)
              (λ x ne. same x (λ eq. ne (omega (arith, eq)))) o.counted)
            (got, tt);
      roomy =
          All-append (Roomy m.blk_size) u.live (next_blocks u.pool size n ∷ []) o.roomy
            (omega (arith, room), tt);
    }
      where
        apart : Apart m.blk_size (u.live ++ (next_blocks u.pool size n) ∷ [])
        apart =
            Runs-Apart m.start m.cnt m.blk_size o.t _ (o.t' + n) handed-Runs
              (omega (arith, turn m s u o, fits))

  pos_of_mul : (k n : ℕ) → 0 < k * n → 0 < k
  pos_of_mul zero n h = omega (arith, zero-mul n, h)
  pos_of_mul (suc k) n h = omega arith

  pub malloc-InOrder :
      (e : Errno) (u : Use) (size ptr : ℕ) (p' : MemoryPool) (descs' : Descs)
      → InOrder m u
      → size + u.pool.blk_size < u32_mod
      → desc_size ≤ u.pool.blk_size - size % u.pool.blk_size
      → memory_pool_malloc e (some u.pool) u.descs size ≡ allocated ptr p' descs'
      → InOrder m (record {
        pool = p';
        descs = descs';
        live =
            u.live
            ++ (record {
              ptr = ptr;
              size = size;
              blocks = block_cnt u.pool size + extra_block size u.pool.blk_size;
            })
              ∷ [];
      })
  unfolding memory_pool_malloc
  malloc-InOrder e u size ptr p' descs' o small leaves got =
      elim (take_blocks-cases e u.pool u.descs cnt extra o.valid (omega arith)
        (extra_small size u.pool.blk_size)) [
          | inl (none_free, faults) ↦ cc
          | inr (inl (few, fails)) ↦ cc
          | inr (inr (enough, descs'', got', desc, others)) ↦
              let whole : add32 cnt extra ≡ cnt + extra =
                omega (arith, no_wrap u.pool (cnt + extra) enough) in
              let same_ptr : ptr ≡ block_at u.pool.memblk + desc_size = cc in
              let same_pool : p' ≡ handed u.pool (add32 cnt extra) = cc in
              let same_descs : descs' ≡ descs'' = cc in
              rw (same_ptr, same_pool, same_descs, whole)
                (handed-InOrder u o size (cnt + extra) (omega (arith, cnt_pos)) enough room descs''
                  desc others)
        ]
    where
      cnt : ℕ
      cnt = block_cnt u.pool size

      extra : ℕ
      extra = extra_block size u.pool.blk_size

      blk_pos : 0 < u.pool.blk_size
      blk_pos = omega (arith, o.measures.blk_size_is, s.room)

      cnt_pos : 0 < block_cnt u.pool size
      cnt_pos = pos_of_mul (block_cnt u.pool size) u.pool.blk_size (
          omega (
            arith,
            block_cnt-align u.pool size blk_pos small,
            (align_size-bounds size u.pool.blk_size blk_pos (omega (arith, small))).2,
            blk_pos,
          ))

      room : desc_size + size ≤ (cnt + extra) * m.blk_size
      room = elim (ℕ_discrete size 0) [
        | yes e ↦
            let more : 1 * m.blk_size ≤ (cnt + extra) * m.blk_size =
              mul-le-mul_right m.blk_size (omega (arith, cnt_pos)) in
            omega (arith, more, leaves, o.measures.blk_size_is, e)
        | no ne ↦
            rw (← o.measures.blk_size_is)
              (blocks-room u.pool size (omega (arith, ne)) blk_pos small leaves)
      ]
