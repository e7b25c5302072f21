-- ===== src/MemPool/Use/Tests.antt =====
-- The theorems about a pool of eight blocks that three allocations fill.
use umtp.Base.{ℕ, ◌≡◌, ◌==◌, if◌then◌else◌, refl, some, [], ◌∷◌, arith}
use umtp.MemPool.{
  MemoryPool, Descs, memory_block_count, memory_pool_malloc, memory_pool_free, allocated,
}
use umtp.MemPool.Live.{Allocation}
use umtp.MemPool.Use.{Use, Reach, malloc, here, next}
use umtp.MemPool.Use.Reuse.{free-reuse}
use umtp.MemPool.Tests.{errno, pool_with, no_descs, create_fresh}

-- After `k` allocations that took the blocks up to `tail`.
abbrev taken : (k tail : ℕ) → MemoryPool
taken k tail = record (pool_with tail tail) { ref_count = k }

abbrev count_at : Descs → (pref n : ℕ) → Descs
count_at d pref n a = if a == pref then n else d a

abbrev descs1 : Descs
descs1 = count_at no_descs 1000 3

abbrev descs2 : Descs
descs2 = count_at descs1 2536 3

abbrev descs3 : Descs
descs3 = count_at descs2 4072 2

abbrev first : Allocation
first = record { ptr = 1016; size = 1024; blocks = 3 }

abbrev second : Allocation
second = record { ptr = 2552; size = 1024; blocks = 3 }

abbrev third : Allocation
third = record { ptr = 4088; size = 512; blocks = 2 }

abbrev filled : Use
filled = record { pool = taken 3 8; descs = descs3; live = first ∷ second ∷ third ∷ [] }

filled-Reach : Reach errno (record { pool = pool_with 0 0; descs = no_descs; live = [] }) filled
unfolding memory_pool_malloc
filled-Reach =
    next
      (next (next here (malloc _ 1024 1016 (taken 1 3) descs1 (omega arith) (omega arith) refl))
        (malloc _ 1024 2552 (taken 2 6) descs2 (omega arith) (omega arith) refl))
      (malloc _ 512 4088 (taken 3 8) descs3 (omega arith) (omega arith) refl)

free-reuse_example :
    (p1 : MemoryPool) × (p2 : MemoryPool) × (descs' : Descs) × (memory_pool_free
        (some (taken 3 8))
        descs3
        (some 2552)
      ≡ some p1)
    × (memory_pool_malloc errno (some p1) descs3 1024 ≡ allocated 1016 p2 descs')
unfolding memory_block_count memory_pool_malloc
free-reuse_example =
    free-reuse errno 90 1000 4096 512 0 (pool_with 0 0) create_fresh (omega arith) refl
      (omega arith) (omega arith) no_descs filled first second [] (third ∷ []) 1024 filled-Reach
      refl refl (omega arith)
