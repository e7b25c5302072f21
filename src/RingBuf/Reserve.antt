-- ===== src/RingBuf/Reserve.antt =====
-- The two-step insertion: `ringbuf_data_peek` lends the next free slot, the caller fills it, and
-- `ringbuf_data_put` takes it in. And how a ring buffer starts.
use Prim.Native.Nat.{◌∣◌}
use umtp.Base.{
  ℕ, ◌+◌, ◌*◌, ◌≤◌, ◌<◌, ◌≡◌, ◌≢◌, ◌⊎◌, inl, inr, refl, sym, ◌∙◌, [], ◌∷◌, ◌++◌, some, none, Option,
  true, false, arith, u32_mod, ==_iff, ==_refl, Bool-cases, length,
}
use umtp.Bytes.{Memory, bytes, bytes-congr}
use umtp.RingBuf.{RingBuffer, count, full, element_at, data_peek, data_put, init}
use umtp.RingBuf.Valid.{IsValid, element_at_bounds}
use umtp.RingBuf.Window.{element, contents, length-contents, window-congr}
use umtp.RingBuf.Move.{pushed, pushed-IsValid, head-Apart, contents-pushed}
use umtp.RingBuf.Refine.{Holds, block_size, room_of, full-length}

module _ {b : RingBuffer} (v : IsValid b) where
  open b use {buffer, element_size, element_count, head, tail}

  -- `ringbuf_data_peek` returns NULL exactly if as many elements are held as there is room for, and
  -- otherwise a slot that lies inside the block of storage.
  pub data_peek_room :
      (m : Memory)
      → ((data_peek (some b) ≡ none) × (length (contents m b) ≡ element_count))
        ⊎ ((p : ℕ) × (data_peek (some b) ≡ some p)
            × (length (contents m b) < element_count)
            × (buffer ≤ p)
            × (p + element_size ≤ buffer + block_size b))
  unfolding data_peek
  data_peek_room m = elim (Bool-cases (full (some b))) [
    | inl e ↦ inl (rw e refl, (==_iff _ _).0 (sym (full-length m v) ∙ e))
    | inr e ↦ inr (
      element_at b head,
      rw e refl,
      rw (length-contents m b) (room_of m v e),
      (element_at_bounds v head).0,
      (element_at_bounds v head).1,
    )
  ]

  lent_slot :
      (p : ℕ) → data_peek (some b) ≡ some p → (full (some b) ≡ false) × (element_at b head ≡ p)
  unfolding data_peek
  lent_slot p e = ground arith

  -- A change of the free slot leaves the elements held alone.
  spared :
      (m g : Memory)
      → full (some b) ≡ false
      → ((a : ℕ) → (a < element_at b head) ⊎ (element_at b head + element_size ≤ a) → g a ≡ m a)
      → (k : ℕ) → k < count (some b)
      → element g b (tail + k) ≡ element m b (tail + k)
  spared m g e only k h = bytes-congr m g _ element_size λ a lo hi. only a (away a lo hi)
    where
      away :
          (a : ℕ)
          → element_at b (tail + k) ≤ a
          → a < element_at b (tail + k) + element_size
          → (a < element_at b head) ⊎ (element_at b head + element_size ≤ a)
      away a lo hi = grind (arith, head-Apart v k (room_of m v e) h)

  -- If the caller changes nothing but the slot that `ringbuf_data_peek` lent, then what the ring
  -- buffer holds is the same until `ringbuf_data_put`, which succeeds on that slot and appends what
  -- the caller wrote there.
  pub data_put-data_peek :
      (m g : Memory) (p : ℕ)
      → data_peek (some b) ≡ some p
      → ((a : ℕ) → (a < p) ⊎ (p + element_size ≤ a) → g a ≡ m a)
      → let (done, r) = data_put (some b) (some p) in
        (contents g b ≡ contents m b)
        × (done ≡ true)
        × Holds b g r (contents m b ++ bytes g p element_size ∷ [])
  unfolding data_put
  data_put-data_peek m g p lent only =
      let (e, at) = lent_slot p lent in
      let here : (a : ℕ)
          → (a < element_at b head) ⊎ (element_at b head + element_size ≤ a)
          → g a ≡ m a =
        λ a out. only a (rw (← at) out) in
      let same = spared m g e here in
      rw (← at) (
        rw (e, ==_refl (element_at b head))
          (
            window-congr (element g b) (element m b) tail tail (count (some b)) same,
            refl,
            (
              pushed-IsValid v (room_of m v e),
              omega arith,
              contents-pushed v m g (room_of m v e) same,
            ),
          ))

  -- `ringbuf_data_put` refuses every pointer but the one that `ringbuf_data_peek` lends, NULL
  -- included, and then leaves the ring buffer as it was.
  pub data_put_refused :
      (p : Option ℕ)
      → (data_peek (some b) ≡ none) ⊎ (data_peek (some b) ≢ p)
      → data_put (some b) p ≡ (false, some b)
  unfolding data_peek data_put
  data_put_refused p h = ground arith

-- The two steps at the free slot, and what they do without one.
pub data_peek-full : (b : RingBuffer) → full (some b) ≡ true → data_peek (some b) ≡ none
unfolding data_peek
data_peek-full b e = rw e refl

pub data_peek-slot :
    (b : RingBuffer) → full (some b) ≡ false → data_peek (some b) ≡ some (element_at b b.head)
unfolding data_peek
data_peek-slot b e = rw e refl

pub data_put-slot :
    (b : RingBuffer)
    → full (some b) ≡ false
    → data_put (some b) (some (element_at b b.head)) ≡ (true, some (pushed b))
unfolding data_put
data_put-slot b e = rw (e, ==_refl (element_at b b.head)) refl

-- `ringbuf_init` on a block whose count divides 2 ^ 32 gives a valid ring buffer that holds nothing,
-- whatever the structure and the storage held before.
pub init-IsValid :
    (old : RingBuffer) (m : Memory) (buffer size cnt : ℕ)
    → 0 < cnt
    → cnt < u32_mod
    → cnt ∣ u32_mod
    → cnt * size ≤ u32_mod
    → (b : RingBuffer) × (init (some old) buffer size cnt ≡ some b)
      × IsValid b
      × (contents m b ≡ [])
      × (b.buffer ≡ buffer)
      × (b.element_size ≡ size)
      × (b.element_count ≡ cnt)
unfolding init count
init-IsValid old m buffer size cnt pos word divides fits = (
  record { buffer = buffer; element_size = size; element_count = cnt; head = 0; tail = 0 },
  refl,
  record {
    positive = pos;
    divides = divides;
    word = word;
    fits = fits;
    head_word = omega arith;
    tail_word = omega arith;
    within = omega arith;
  },
  refl,
  refl,
  refl,
  refl,
)
