-- ===== src/MemPool/Use/Keep.antt =====
-- To free the oldest allocation, and to write to what was given, keeps the others in order.

use umtp.Base.{sub32, ℕ, ◌+◌, ◌-◌, ◌≤◌, ◌⊎◌, ◌≡◌, inl, inr, ◌∙◌, some, List, [], ◌∷◌, arith}
use umtp.MemPool.{
  MemoryPool, Descs, desc_size, memory_block_count, memory_block_put, memory_pool_free,
}
use umtp.MemPool.Live.{
  All-zip, Placed, Runs-Placed, Allocation, All, All-map, first_byte, end_byte, Disjoint, Apart,
}
use umtp.MemPool.Use.{
  Use, Outside, Roomy, Counted, Measures, IsSound, InOrder, InOrder-Apart, block_bytes,
}

-- The four bytes at `x` are none of the blocks behind the count.
abbrev Clear : ℕ → ℕ → Allocation → Type 0
Clear blk_size x a = (x + 4 ≤ a.ptr) ⊎ (end_byte blk_size a ≤ x)

module _ (m : Measures) (s : IsSound m) where
  Clear-Outside :
      (x : ℕ) (xs : List Allocation)
      → All (Clear m.blk_size x) xs
      → All (Roomy m.blk_size) xs
      → All (Outside x) xs
  Clear-Outside x [] c r = tt
  Clear-Outside x (a ∷ xs) c r = (ground (arith, c.0, r.0), Clear-Outside x xs c.1 r.1)

  pub free-InOrder :
      (p p' : MemoryPool) (descs : Descs) (a : Allocation) (xs : List Allocation)
      → InOrder m (record { pool = p; descs = descs; live = a ∷ xs })
      → memory_pool_free (some p) descs (some a.ptr) ≡ some p'
      → InOrder m (record { pool = p'; descs = descs; live = xs })
  unfolding memory_pool_free memory_block_put memory_block_count
  free-InOrder p p' descs a xs o got = rw pool_is (record {
    valid = omega (arith, o.valid, o.used_is, recorded);
    measures = record {
      start_is = o.measures.start_is;
      cnt_is = o.measures.cnt_is;
      blk_size_is = o.measures.blk_size_is;
      count_is = o.measures.count_is;
      per_size_is = o.measures.per_size_is;
    };
    t = o.t + a.blocks;
    t' = o.t';
    tail_is = o.tail_is;
    used_is = omega (arith, o.used_is, o.valid, recorded);
    runs = o.runs.2;
    counted = o.counted.1;
    roomy = o.roomy.1;
  })
    where
      recorded : descs (a.ptr - desc_size) ≡ a.blocks
      recorded = o.counted.0

      pool_is : p' ≡ record p {
        memblk = memory_block_put p.memblk (descs (a.ptr - desc_size));
        blk_used = sub32 p.blk_used (descs (a.ptr - desc_size));
        ref_count = sub32 p.ref_count 1;
      }
      pool_is = ground (arith, o.runs.0, o.measures.start_is)

  Clear-ptr :
      (a b : Allocation)
      → Placed a
      → Placed b
      → Disjoint m.blk_size a b
      → Clear m.blk_size (first_byte a) b
  Clear-ptr a b pa pb (inl le) = inl (omega (arith, block_bytes m s a.blocks pa.1, pb.0))
  Clear-ptr a b pa pb (inr le) = inr le

  Clear-ptrs :
      (a : Allocation) (xs : List Allocation)
      → Placed a
      → All Placed xs
      → All (Disjoint m.blk_size a) xs
      → All (Clear m.blk_size (first_byte a)) xs
  Clear-ptrs a [] pa ps d = tt
  Clear-ptrs a (b ∷ xs) pa ps d = (Clear-ptr a b pa ps.0 d.0, Clear-ptrs a xs pa ps.1 d.1)

  Clear-heads :
      (a : Allocation) (xs : List Allocation)
      → Placed a
      → All Placed xs
      → All (Disjoint m.blk_size a) xs
      → All (λ b. Clear m.blk_size (first_byte b) a) xs
  Clear-heads a [] pa ps d = tt
  Clear-heads a (b ∷ xs) pa ps d =
      (Clear-ptr b a ps.0 pa (ground arith), Clear-heads a xs pa ps.1 d.1)

  -- No count lies in the blocks of an allocation, behind its own count.
  counts-Clear :
      (xs : List Allocation)
      → All Placed xs
      → Apart m.blk_size xs
      → All (λ a. All (Clear m.blk_size (first_byte a)) xs) xs
  counts-Clear [] ps d = tt
  counts-Clear (a ∷ xs) ps d = (
    (inl (omega (arith, ps.0.0)), Clear-ptrs a xs ps.0 ps.1 d.0),
    All-zip (λ b. Clear m.blk_size (first_byte b) a) (λ b. All (Clear m.blk_size (first_byte b)) xs)
        xs (Clear-heads a xs ps.0 ps.1 d.0) (counts-Clear xs ps.1 d.1),
  )

  pub write-InOrder :
      (u : Use) (descs' : Descs)
      → InOrder m u
      → ((x : ℕ) → All (Outside x) u.live → descs' x ≡ u.descs x)
      → InOrder m (record u { descs = descs' })
  write-InOrder u descs' o same = record {
    valid = o.valid;
    measures = o.measures;
    t = o.t;
    t' = o.t';
    tail_is = o.tail_is;
    used_is = o.used_is;
    runs = o.runs;
    counted =
        All-map (λ a. All (Clear m.blk_size (first_byte a)) u.live × Counted u.descs a)
          (Counted descs') u.live
          (λ a h. same (first_byte a) (Clear-Outside (first_byte a) u.live h.0 o.roomy) ∙ h.1)
          (All-zip (λ a. All (Clear m.blk_size (first_byte a)) u.live) (Counted u.descs) u.live
            (counts-Clear u.live (Runs-Placed m.start m.cnt m.blk_size o.t u.live o.t' o.runs)
              (InOrder-Apart m s o))
            o.counted);
    roomy = o.roomy;
  }
