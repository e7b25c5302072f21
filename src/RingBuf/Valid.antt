-- ===== src/RingBuf/Valid.antt =====
-- The representation invariant of a ring buffer, and where its elements lie.
use Prim.Native.Nat.{◌∣◌}
use native.Mathlib.Nat.{mod-lt, mod-eq_of_lt, mod-eq-sub-mod, mod-add-mod, mod-mod_of_dvd}
use native.Mathlib.Decide.{dec_lt}
use umtp.Base.{
  ℕ, zero, suc, ◌+◌, ◌-◌, ◌*◌, ◌%◌, ◌≤◌, ◌<◌, ◌≡◌, ◌≢◌, inl, inr, arith, u32_mod, sub32,
}
use umtp.Bytes.{Apart}
use umtp.RingBuf.{RingBuffer, element_at}

-- The element count divides 2 ^ 32, as every power of two below it does: the counters wrap at a
-- whole number of turns round the block.
pub record IsValid (b : RingBuffer) : Type 0 where
  pub positive : 0 < b.element_count
  pub divides : b.element_count ∣ u32_mod
  pub word : b.element_count < u32_mod
  pub fits : b.element_count * b.element_size ≤ u32_mod
  pub head_word : b.head < u32_mod
  pub tail_word : b.tail < u32_mod
  pub within : sub32 b.head b.tail ≤ b.element_count

-- Fewer than `c` steps round the ring do not come back to the start.
pub mod_apart : (c x k : ℕ) → 0 < k → k < c → (x + k) % c ≢ x % c
mod_apart c x k hp hk = elim (dec_lt (x % c + k) c) [
  | yes p ↦ omega (arith, mod-add-mod x c k, mod-eq_of_lt p, mod-lt x {m = c} (omega arith))
  | no p ↦ omega (
    arith,
    mod-add-mod x c k,
    mod-lt x {m = c} (omega arith),
    mod-eq-sub-mod {n = x % c + k} {m = c} (omega arith),
    mod-eq_of_lt {n = x % c + k - c} {m = c} (omega (arith, mod-lt x {m = c} (omega arith))),
  )
]

-- The blocks of two different indices have no address in common.
blocks-Apart : (p s i j : ℕ) → i ≢ j → Apart (p + i * s) s (p + j * s) s
blocks-Apart p s i j ne = elim (dec_lt i j) [ yes h ↦ inl (grind arith) | no h ↦ inr (grind arith) ]

offset_step : (r c s : ℕ) → r < c → r * s + s ≤ c * s
offset_step r c s h = grind arith

offset_fits : (r c s u : ℕ) → r < c → 0 < u → c * s ≤ u → (r * s) % u ≡ r * s
offset_fits r c zero u h p k = mod-eq_of_lt (omega arith)
offset_fits r c (suc s) u h p k = mod-eq_of_lt (omega (arith, offset_step r c (suc s) h))

module _ {b : RingBuffer} (v : IsValid b) where
  open v use {positive, divides, fits}
  open b use {buffer, element_size, element_count}

  -- The counters may wrap: the index is the same.
  pub wrap-mod : (x : ℕ) → (x % u32_mod) % element_count ≡ x % element_count
  wrap-mod x = mod-mod_of_dvd element_count x divides

  pub element_at_lem : (i : ℕ) → element_at b i ≡ buffer + (i % element_count) * element_size
  unfolding element_at
  element_at_lem i = omega (
    arith,
    offset_fits (i % element_count) element_count element_size u32_mod (mod-lt i positive)
        (omega arith) fits,
  )

  -- Every element lies inside the block of storage.
  pub element_at_bounds :
      (i : ℕ)
      → (buffer ≤ element_at b i)
        × (element_at b i + element_size ≤ buffer + element_count * element_size)
  element_at_bounds i = omega (
    arith,
    element_at_lem i,
    offset_step (i % element_count) element_count element_size (mod-lt i positive),
  )

  -- Elements fewer than `element_count` steps away from each other have blocks of their own.
  pub element_at-Apart :
      (i k : ℕ)
      → 0 < k
      → k < element_count
      → Apart (element_at b (i + k)) element_size (element_at b i) element_size
  element_at-Apart i k hp hk =
      rw (element_at_lem (i + k), element_at_lem i)
        (blocks-Apart buffer element_size _ _ (mod_apart element_count i k hp hk))
