-- ===== src/MemPool/Tests.antt =====
-- The theorems about the pool at one of eight blocks of 512 bytes.
use umtp.Base.{◌*◌, ◌≤◌, ◌==◌, if◌then◌else◌, ℕ, ◌+◌, ◌<◌, ◌≡◌, ◌⊎◌, refl, some, arith}
use umtp.Errno.{Errno}
use umtp.MemPool.{
  memory_block_count, MemoryPool, Descs, block_cnt, extra_block, memory_pool_create,
  memory_pool_malloc, memory_pool_free, allocated, failed, fault,
}
use umtp.MemPool.Blocks.{IsValid, free_blocks, SameCounts, malloc-IsValid}
use umtp.MemPool.Extent.{malloc-room, malloc-inside}

abbrev pub errno : Errno
errno = record {
  einval = 22;
  enoent = 2;
  eexist = 17;
  eproto = 71;
  enomem = 12;
  etimedout = 110;
  ebadf = 9;
}

abbrev pub pool_with : (used tail : ℕ) → MemoryPool
pool_with used tail = record {
  total_size = 4096;
  blk_size = 512;
  blk_cnt = 8;
  blk_used = used;
  ref_count = 0;
  flag = 0;
  memblk = record { buffer = 1000; per_size = 512; count = 8; head = 8; tail = tail };
  start = 1000;
}

-- `memory_pool_create(4096, 512, 0)`, as in `main` of memory.c.
pub create_fresh : memory_pool_create (some 90) (some 1000) 4096 512 0 ≡ some (pool_with 0 0)
unfolding memory_pool_create
create_fresh = refl

abbrev pub no_descs : Descs
no_descs a = 0

fresh-IsValid : IsValid (pool_with 0 0)
unfolding memory_block_count
fresh-IsValid = omega arith

malloc-IsValid_example :
    let n = block_cnt (pool_with 0 0) 1024 + extra_block 1024 (pool_with 0 0).blk_size in
    ((free_blocks (pool_with 0 0) ≡ 0)
      × (memory_pool_malloc errno (some (pool_with 0 0)) no_descs 1024 ≡ fault))
    ⊎ (((free_blocks (pool_with 0 0) < n)
          × (memory_pool_malloc errno (some (pool_with 0 0)) no_descs 1024 ≡ failed 12))
        ⊎ ((ptr : ℕ) × (p' : MemoryPool) × (descs' : Descs) × (q : MemoryPool) × (memory_pool_malloc
                errno
                (some (pool_with 0 0))
                no_descs
                1024
              ≡ allocated ptr p' descs')
            × IsValid p'
            × (free_blocks p' + n ≡ free_blocks (pool_with 0 0))
            × (p'.blk_used ≡ 0 + n)
            × (memory_pool_free (some p') descs' (some ptr) ≡ some q)
            × IsValid q
            × SameCounts (pool_with 0 0) q))
malloc-IsValid_example = malloc-IsValid errno (pool_with 0 0) no_descs 1024 fresh-IsValid

-- The pool after `n` blocks were handed out.
abbrev after : MemoryPool → ℕ → MemoryPool
after p n = record p {
  ref_count = 1;
  blk_used = n;
  memblk = record p.memblk { tail = p.memblk.tail + n };
}

abbrev counted : (pref n : ℕ) → Descs
counted pref n a = if a == pref then n else 0

-- 511 bytes do not fit beside the count in one block of 512.
tight :
    memory_pool_malloc errno (some (pool_with 0 0)) no_descs 511
    ≡ allocated 1016 (after (pool_with 0 0) 1) (counted 1000 1)
unfolding memory_pool_malloc
tight = refl

malloc-room_example :
    ((16 ≤ 1) × (1527 ≤ 1000 + counted 1000 1 1000 * 512))
    ⊎ ((1 < 16) × (1000 + counted 1000 1 1000 * 512 < 1527))
malloc-room_example =
    malloc-room errno (pool_with 0 0) (after (pool_with 0 0) 1) no_descs (counted 1000 1) 511 1016
      fresh-IsValid (omega arith) (omega arith) (omega arith) tight

-- All blocks are free, and the last one is the next.
abbrev turned : MemoryPool
turned = record (pool_with 0 0) {
  memblk = record { buffer = 1000; per_size = 512; count = 8; head = 15; tail = 7 };
}

turned-IsValid : IsValid turned
unfolding memory_block_count
turned-IsValid = omega arith

over_the_end :
    memory_pool_malloc errno (some turned) no_descs 512
    ≡ allocated 4600 (after turned 2) (counted 4584 2)
unfolding memory_pool_malloc
over_the_end = refl

malloc-inside_example :
    ((7 + counted 4584 2 4584 ≤ 8) × (4584 + counted 4584 2 4584 * 512 ≤ 5096))
    ⊎ ((8 < 7 + counted 4584 2 4584) × (5096 < 4584 + counted 4584 2 4584 * 512))
malloc-inside_example =
    malloc-inside errno turned (after turned 2) no_descs (counted 4584 2) 512 4600 turned-IsValid
      (omega arith) (omega arith) refl refl (omega arith) over_the_end
