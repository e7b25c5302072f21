-- ===== src/MemPool/Use/Order.antt =====
-- The allocations of a pool that is used in order share no byte.

use native.Mathlib.Nat.{mod-le, div-mul-le_self, mul-le-mul_right}
use umtp.Base.{◌/◌, ℕ, ◌*◌, ◌%◌, ◌≤◌, ◌<◌, ◌≡◌, refl, some, [], arith, add32, u32_mod}
use umtp.Errno.{Errno}
use umtp.MemPool.{MemoryPool, Descs, desc_size, memory_block_count, memory_block_put}
use umtp.MemPool.Align.{align_size-bounds}
use umtp.MemPool.Use.{
  measures_of, Use, Step, Reach, malloc, free, write, here, next, Measures, IsSound, InOrder,
}
use umtp.MemPool.{memory_pool_create, memory_block_init, align_size}
use umtp.MemPool.Use.Next.{malloc-InOrder}
use umtp.MemPool.Use.Keep.{free-InOrder, write-InOrder}

module _ (m : Measures) (s : IsSound m) where
  Step-InOrder : {e : Errno} {u v : Use} → Step e u v → InOrder m u → InOrder m v
  Step-InOrder {e} (malloc u size ptr p' descs' small leaves got) o =
      malloc-InOrder m s e u size ptr p' descs' o small leaves got
  Step-InOrder (free p p' descs a xs got) o = free-InOrder m s p p' descs a xs o got
  Step-InOrder (write u descs' same) o = write-InOrder m s u descs' o same

  pub Reach-InOrder : {e : Errno} {u v : Use} → InOrder m u → Reach e u v → InOrder m v
  Reach-InOrder o here = o
  Reach-InOrder o (next r step) = Step-InOrder step (Reach-InOrder o r)

-- What `memory_pool_create` sets.
created :
    (pool start total_size mem_blk_size flag : ℕ) (p : MemoryPool)
    → memory_pool_create (some pool) (some start) total_size mem_blk_size flag ≡ some p
    → (p.blk_size ≡ align_size mem_blk_size desc_size)
      × (p.blk_cnt ≡ (p.total_size / p.blk_size) % u32_mod)
      × (p.blk_used ≡ 0)
      × (p.ref_count ≡ 0)
      × (p.start ≡ p.memblk.buffer)
      × (p.memblk.per_size ≡ p.blk_size % u32_mod)
      × (p.memblk.count ≡ p.blk_cnt)
      × (p.memblk.head ≡ add32 0 p.blk_cnt)
      × (p.memblk.tail ≡ 0)
unfolding memory_pool_create memory_block_init memory_block_put
created pool start total_size mem_blk_size flag p made = (cc, cc, cc, cc, cc, cc, cc, cc, cc)

module _ (pool start total_size mem_blk_size flag : ℕ) (p : MemoryPool)
    (made : memory_pool_create (some pool) (some start) total_size mem_blk_size flag ≡ some p)
    (some_blocks : 0 < p.blk_cnt) (even : u32_mod % p.blk_cnt ≡ 0) (small : p.total_size < u32_mod)
    (small' : mem_blk_size < u32_mod) where
  created_whole : p.blk_cnt * p.blk_size < u32_mod
  created_whole =
      let cnt = (created pool start total_size mem_blk_size flag p made).1 in
      let blocks : ℕ = p.total_size / p.blk_size in
      let le : p.blk_cnt * p.blk_size ≤ blocks * p.blk_size =
        mul-le-mul_right p.blk_size (omega (arith, cnt, mod-le blocks u32_mod)) in
      omega (arith, le, div-mul-le_self p.total_size p.blk_size)

  pub created-IsSound : IsSound (measures_of p)
  created-IsSound =
      let size = (created pool start total_size mem_blk_size flag p made).0 in
      record {
        even = even;
        some_blocks = some_blocks;
        room =
            omega (
              arith,
              size,
              (align_size-bounds mem_blk_size desc_size (omega arith) (omega arith)).2,
            );
        whole = created_whole;
      }

  pub created-InOrder :
      (descs : Descs) → InOrder (measures_of p) (record { pool = p; descs = descs; live = [] })
  unfolding memory_block_count
  created-InOrder descs =
      let made' = created pool start total_size mem_blk_size flag p made in
      let one : 1 * p.blk_size ≤ p.blk_cnt * p.blk_size = mul-le-mul_right p.blk_size some_blocks in
      record {
        valid = omega (arith, made');
        measures = record {
          start_is = refl;
          cnt_is = refl;
          blk_size_is = refl;
          count_is = made'.6;
          per_size_is = omega (arith, made'.5, one, created_whole);
        };
        t = 0;
        t' = 0;
        tail_is = omega (arith, made'.8);
        used_is = made'.2;
        runs = refl;
        counted = tt;
        roomy = tt;
      }
