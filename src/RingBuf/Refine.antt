-- ===== src/RingBuf/Refine.antt =====
-- On a valid ring buffer the operations that copy data behave as those of the bounded deque of
-- its elements, and write nowhere but to the block of storage and, for `pop`, the caller's buffer.
use umtp.Base.{
  ℕ, ◌+◌, ◌*◌, ◌≤◌, ◌<◌, ◌≡◌, ◌⊎◌, inl, inr, refl, sym, ap, ◌∙◌, List, [], ◌∷◌, ◌++◌, some, Option,
  none, true, false, arith, sub32, ◌==◌, Bool-cases, length,
}
use umtp.Deque.{push_back, push_front, pop_front}
use umtp.Bytes.{Memory, copy, bytes, Apart, copy-outside, bytes-copy, bytes-copy_outside}
use umtp.RingBuf.{RingBuffer, count, full, empty, element_at, copy_out, put, put_front, pop}
use umtp.RingBuf.Valid.{IsValid, element_at_bounds}
use umtp.RingBuf.Window.{Element, element, contents, length-contents}
use umtp.RingBuf.Move.{
  pushed, pushed_front, popped, pushed-IsValid, pushed_front-IsValid, popped-IsValid, head-Apart,
  before-Apart, contents-pushed, contents-pushed_front, contents-popped,
}

-- The same block of storage, with its division into elements.
pub record SameBlock (b r : RingBuffer) : Type 0 where
  pub same_buffer : r.buffer ≡ b.buffer
  pub same_size : r.element_size ≡ b.element_size
  pub same_count : r.element_count ≡ b.element_count

-- A ring buffer on the block of `b` that is valid and holds the elements `q`.
abbrev pub Holds : RingBuffer → Memory → Option RingBuffer → List Element → Type 0
Holds b m none q = ⊥
Holds b m (some r) q = IsValid r × SameBlock b r × (contents m r ≡ q)

abbrev pub block_size : RingBuffer → ℕ
block_size b = b.element_count * b.element_size

-- Nothing outside the block of `b` has changed.
abbrev pub SameOutside : RingBuffer → Memory → Memory → Type 0
SameOutside b m g = (a : ℕ) → (a < b.buffer) ⊎ (b.buffer + block_size b ≤ a) → g a ≡ m a

module _ (m : Memory) {b : RingBuffer} (v : IsValid b) where
  open b use {buffer, element_size, element_count, head, tail}

  pub full-length : full (some b) ≡ (length (contents m b) == element_count)
  unfolding full
  full-length = rw (length-contents m b)

  pub room_of : full (some b) ≡ false → count (some b) < element_count
  unfolding full count
  room_of h = ground (arith, v.within)

  some_of : empty (some b) ≡ false → 0 < count (some b)
  unfolding empty
  some_of h = ground arith

  -- Writing to the slot of counter value `i` leaves what lies outside the block alone.
  slot_outside : (i p : ℕ) → SameOutside b m (copy m (element_at b i) p element_size)
  slot_outside i p a out =
      copy-outside m (element_at b i) p element_size a (grind (arith, element_at_bounds v i))

  -- A source outside the block does not meet the slot.
  slot-Apart :
      (i p : ℕ)
      → Apart buffer (block_size b) p element_size
      → Apart (element_at b i) element_size p element_size
  slot-Apart i p apart = grind (arith, element_at_bounds v i)

  -- `ringbuf_put` from a source outside the block returns what `push_back` of the deque returns,
  -- leaves the ring buffer valid, on the same block and holding the deque's new contents, and
  -- writes to the block only.
  pub put-push_back :
      (p : ℕ)
      → Apart buffer (block_size b) p element_size
      → let (done, r, g) = put (some b) (some p) m in
        let (done', q) = push_back element_count (contents m b) (bytes m p element_size) in
        (done ≡ done') × Holds b g r q × SameOutside b m g
  unfolding put
  put-push_back p apart = elim (Bool-cases (full (some b))) [
    | inl e ↦ rw (e, sym full-length ∙ e) (refl, (v, omega arith, refl), λ a out. refl)
    | inr e ↦
        rw (e, sym full-length ∙ e)
          (refl, (pushed-IsValid v (room_of e), omega arith, stored e), slot_outside head p)
  ]
    where
      stored :
          full (some b) ≡ false
          → contents (copy m (element_at b head) p element_size) (pushed b)
            ≡ contents m b ++ bytes m p element_size ∷ []
      stored e =
          contents-pushed v m _ (room_of e)
            (λ k h. bytes-copy_outside m _ p element_size _ _ (head-Apart v k (room_of e) h))
          ∙ ap (λ x. contents m b ++ x ∷ [])
              (bytes-copy m (element_at b head) p element_size (slot-Apart head p apart))

  -- `ringbuf_put_front` from a source outside the block returns what `push_front` of the deque
  -- returns, leaves the ring buffer valid, on the same block and holding the deque's new contents,
  -- and writes to the block only.
  pub put_front-push_front :
      (p : ℕ)
      → Apart buffer (block_size b) p element_size
      → let (done, r, g) = put_front (some b) (some p) m in
        let (done', q) = push_front element_count (contents m b) (bytes m p element_size) in
        (done ≡ done') × Holds b g r q × SameOutside b m g
  unfolding put_front
  put_front-push_front p apart = elim (Bool-cases (full (some b))) [
    | inl e ↦ rw (e, sym full-length ∙ e) (refl, (v, omega arith, refl), λ a out. refl)
    | inr e ↦
        rw (e, sym full-length ∙ e)
          (refl, (pushed_front-IsValid v (room_of e), omega arith, stored e), slot_outside _ p)
  ]
    where
      stored :
          full (some b) ≡ false
          → contents (copy m (element_at b (sub32 tail 1)) p element_size) (pushed_front b)
            ≡ bytes m p element_size ∷ contents m b
      stored e =
          contents-pushed_front v m _ (room_of e)
            (λ k h. bytes-copy_outside m _ p element_size _ _ (before-Apart v k (room_of e) h))
          ∙ ap (λ x. x ∷ contents m b)
              (bytes-copy m (element_at b (sub32 tail 1)) p element_size (slot-Apart _ p apart))

  -- What `ringbuf_pop` writes when the elements `q` are held: the oldest one, at the caller's
  -- target, and nothing at NULL.
  abbrev pub Delivered : Option ℕ → List Element → Memory → Type 0
  Delivered p [] g = (a : ℕ) → g a ≡ m a
  Delivered none (x ∷ q) g = (a : ℕ) → g a ≡ m a
  Delivered (some p) (x ∷ q) g =
      (bytes g p element_size ≡ x) × ((a : ℕ) → (a < p) ⊎ (p + element_size ≤ a) → g a ≡ m a)

  abbrev pub Disjoint : Option ℕ → Type 0
  Disjoint none = Unit {0}
  Disjoint (some p) = Apart buffer (block_size b) p element_size

  contents-nil : empty (some b) ≡ true → contents m b ≡ []
  unfolding empty
  contents-nil e = rw (let z : count (some b) ≡ 0 = ground arith in z)

  -- The elements behind the first, in a storage that spares them all.
  contents-cons :
      (g : Memory)
      → empty (some b) ≡ false
      → ((i : ℕ) → element g b i ≡ element m b i)
      → contents m b ≡ element m b tail ∷ contents g (popped b)
  contents-cons g e same = contents-popped v m g (some_of e) (λ k h. same (tail + k))

  taken :
      (p : Option ℕ)
      → Disjoint p
      → empty (some b) ≡ false
      → let g = copy_out m p (element_at b tail) element_size in
        Holds b g (some (popped b)) (pop_front (contents m b)).1 × Delivered p (contents m b) g
  unfolding copy_out
  taken none apart e =
      rw (contents-cons m e (λ i. refl))
        ((popped-IsValid v (some_of e), omega arith, refl), λ a. refl)
  taken (some p) apart e =
      rw (contents-cons _ e spared)
        ((popped-IsValid v (some_of e), omega arith, refl), (arrived, written))
    where
      target : (i : ℕ) → Apart p element_size (element_at b i) element_size
      target i = grind (arith, element_at_bounds v i)

      spared : (i : ℕ) → element (copy m p (element_at b tail) element_size) b i ≡ element m b i
      spared i = bytes-copy_outside m p _ element_size _ _ (target i)

      arrived : bytes (copy m p (element_at b tail) element_size) p element_size ≡ element m b tail
      arrived = bytes-copy m p _ element_size (target tail)

      written :
          (a : ℕ)
          → (a < p) ⊎ (p + element_size ≤ a)
          → copy m p (element_at b tail) element_size a ≡ m a
      written a out = copy-outside m p _ element_size a out

  -- `ringbuf_pop` with a target outside the block, or with NULL, returns what `pop_front` of the
  -- deque returns, leaves the ring buffer valid, on the same block and holding the deque's new
  -- contents, and writes nothing but the oldest element, if there is one, to the target.
  pub pop-pop_front :
      (p : Option ℕ)
      → Disjoint p
      → let (done, r, g) = pop (some b) p m in
        let (done', q) = pop_front (contents m b) in
        (done ≡ done') × Holds b g r q × Delivered p (contents m b) g
  unfolding pop
  pop-pop_front p apart = elim (Bool-cases (empty (some b))) [
    | inl e ↦ rw (e, contents-nil e) (refl, (v, omega arith, refl), λ a. refl)
    | inr e ↦ let (held, delivered) = taken p apart e in rw e (found e, held, delivered)
  ]
    where
      found : empty (some b) ≡ false → true ≡ (pop_front (contents m b)).0
      found e = rw (contents-cons m e (λ i. refl))
