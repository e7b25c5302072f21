-- ===== src/MemPool.antt =====
-- core/memory.c and include/memory.h: a pool of blocks in one piece of storage, handed out in turn.
-- `malloc` gives a pointer or NULL, an argument of the functions that call it; the storage is a map
-- from addresses to the 32-bit count that a block begins with, `struct memblk_desc`. A `size_t` is
-- 64 bits wide and `unsigned` 32.
pub mod Align
pub mod Blocks
pub mod Extent
pub mod Live
pub mod Use
mod Tests
use umtp.Base.{
  ℕ, ◌+◌, ◌-◌, ◌*◌, ◌/◌, ◌%◌, ◌^◌, Bool, true, false, not, Option, none, some, List, [], ◌∷◌, ltb,
  leb, ◌==◌, if◌then◌else◌, add32, sub32, mul32, u32_mod,
}
use umtp.Errno.{Errno}

pub record MemoryBlocks : Type 0 where
  pub buffer : ℕ
  pub per_size : ℕ
  pub count : ℕ
  pub head : ℕ
  pub tail : ℕ

pub record MemoryPool : Type 0 where
  pub total_size : ℕ
  pub blk_size : ℕ
  pub blk_cnt : ℕ
  pub blk_used : ℕ
  pub ref_count : ℕ
  pub flag : ℕ
  pub memblk : MemoryBlocks
  pub start : ℕ

abbrev pub u64_mod : ℕ
u64_mod = 2 ^ 64

-- `sizeof(struct memblk_desc)`
abbrev pub desc_size : ℕ
desc_size = 16

-- The count at each address.
abbrev pub Descs : Type 0
Descs = ℕ → ℕ

-- The functions on the blocks get the address of `memblk`, never NULL.
pub memory_block_count : MemoryBlocks → ℕ
memory_block_count m = sub32 m.head m.tail

pub memory_block_empty : MemoryBlocks → Bool
unfolding memory_block_count
memory_block_empty m = memory_block_count m == 0

-- NULL if there is none.
pub memory_block_get : MemoryBlocks → ℕ → Option ℕ × MemoryBlocks
unfolding memory_block_empty
memory_block_get m cnt = if memory_block_empty m then (none, m) else (
  some (m.buffer + mul32 (m.tail % m.count) m.per_size),
  record m { tail = add32 m.tail cnt },
)

pub memory_block_put : MemoryBlocks → ℕ → MemoryBlocks
memory_block_put m cnt = record m { head = add32 m.head cnt }

pub memory_block_init : (start per_size cnt : ℕ) → MemoryBlocks
unfolding memory_block_put
memory_block_init start per_size cnt =
    memory_block_put
      (record { buffer = start; per_size = per_size; count = cnt; head = 0; tail = 0 }) cnt

-- `flag & (1 << k)` and `flag |= 1 << k`, for `bit` the power of two.
abbrev pub has_bit : ℕ → ℕ → Bool
has_bit bit flag = flag / bit % 2 == 1

abbrev pub set_bit : ℕ → ℕ → ℕ
set_bit bit flag = if has_bit bit flag then flag else flag + bit

pub mem_pool_extensible : ℕ → Bool
mem_pool_extensible flag = has_bit 2 flag

pub mem_pool_set_extensible : ℕ → ℕ
mem_pool_set_extensible flag = set_bit 2 flag

pub mem_pool_limited : ℕ → Bool
mem_pool_limited flag = has_bit 4 flag

pub mem_pool_set_limited : ℕ → ℕ
mem_pool_set_limited flag = set_bit 4 flag

-- `align` of memory.c; the sum may wrap.
pub align_size : (size align : ℕ) → ℕ
align_size size align =
    if leb size align
    then align
    else if size % align == 0
    then size
    else (size + (align - size % align)) % u64_mod

-- The two results of `malloc`, for the structure and for the storage.
pub memory_pool_create :
    (pool start : Option ℕ) → (total_size mem_blk_size flag : ℕ) → Option MemoryPool
unfolding align_size memory_block_init
memory_pool_create none start total_size mem_blk_size flag = none
memory_pool_create (some p) none total_size mem_blk_size flag = none
memory_pool_create (some p) (some start) total_size mem_blk_size flag =
    let blk_size = align_size mem_blk_size desc_size in
    let total = align_size total_size mem_blk_size in
    let blk_cnt = (total / blk_size) % u32_mod in
    some (record {
      total_size = total;
      blk_size = blk_size;
      blk_cnt = blk_cnt;
      blk_used = 0;
      ref_count = 0;
      flag = flag;
      memblk = memory_block_init start (blk_size % u32_mod) blk_cnt;
      start = start;
    })

-- The pointers that are freed, in order: the storage, and the structure at `p`.
pub memory_pool_destroy : Option (ℕ × MemoryPool) → List ℕ
memory_pool_destroy none = []
memory_pool_destroy (some (p, pool)) = if pool.start == 0 then p ∷ [] else pool.start ∷ p ∷ []

-- One more block for the count itself, unless the last block holds more than sixteen bytes already.
pub extra_block : (size blk_size : ℕ) → ℕ
extra_block size blk_size = if ltb desc_size (size % blk_size) then 0 else 1

-- What `memory_pool_malloc` did: NULL with an errno, a pointer, or a write through NULL.
pub data Malloc : Type 0 where
  failed : ℕ → Malloc
  allocated : ℕ → MemoryPool → Descs → Malloc
  fault : Malloc

pub hand_out : MemoryPool → Descs → ℕ → Option ℕ × MemoryBlocks → Malloc
hand_out p descs n (none, m) = fault
hand_out p descs n (some pref, m) =
    allocated (pref + desc_size)
      (record p { ref_count = add32 p.ref_count 1; blk_used = add32 p.blk_used n; memblk = m })
      (λ a. if a == pref then n else descs a)

-- From the test of the count on.
pub take_blocks : Errno → MemoryPool → Descs → (cnt extra : ℕ) → Malloc
unfolding memory_block_count memory_block_get hand_out
take_blocks n p descs cnt extra =
    if leb cnt (sub32 (memory_block_count p.memblk) extra)
    then hand_out p descs (add32 cnt extra) (memory_block_get p.memblk (add32 cnt extra))
    else failed n.enomem

abbrev pub block_cnt : MemoryPool → ℕ → ℕ
block_cnt p size = (align_size size p.blk_size / p.blk_size) % u32_mod

pub memory_pool_malloc : Errno → Option MemoryPool → Descs → ℕ → Malloc
unfolding take_blocks align_size extra_block
memory_pool_malloc n none descs size = failed n.einval
memory_pool_malloc n (some p) descs size =
    take_blocks n p descs (block_cnt p size) (extra_block size p.blk_size)

pub memory_pool_free : Option MemoryPool → Descs → Option ℕ → Option MemoryPool
unfolding memory_block_put
memory_pool_free none descs ptr = none
memory_pool_free (some p) descs none = some p
memory_pool_free (some p) descs (some ptr) =
    let blk_cnt = descs (ptr - desc_size) in
    if ltb ptr p.start
    then some p
    else some (record p {
      memblk = memory_block_put p.memblk blk_cnt;
      blk_used = sub32 p.blk_used blk_cnt;
      ref_count = sub32 p.ref_count 1;
    })
