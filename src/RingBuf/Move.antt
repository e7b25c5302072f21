-- ===== src/RingBuf/Move.antt =====
-- How the contents of a ring buffer change when a counter moves by one, while the storage of the
-- elements held is spared.
use umtp.Base.{
  ℕ, suc, ◌+◌, ◌-◌, ◌%◌, ◌<◌, ◌≡◌, refl, sym, ap, ◌∙◌, ◌∷◌, ◌++◌, [], some, arith, u32_mod, add32,
  sub32,
}
use umtp.Bytes.{Memory, bytes, Apart, Apart-sym}
use umtp.RingBuf.{RingBuffer, count, element_at}
use umtp.RingBuf.Valid.{IsValid, wrap-mod, element_at-Apart}
use umtp.RingBuf.Window.{window-congr, window-suc, element, contents}

abbrev pub pushed : RingBuffer → RingBuffer
pushed b = record b { head = add32 b.head 1 }

abbrev pub pushed_front : RingBuffer → RingBuffer
pushed_front b = record b { tail = sub32 b.tail 1 }

abbrev pub popped : RingBuffer → RingBuffer
popped b = record b { tail = add32 b.tail 1 }

module _ {b : RingBuffer} (v : IsValid b) where
  open b use {buffer, element_size, element_count, head, tail}

  pub element_at-congr : (x y : ℕ) → x % u32_mod ≡ y % u32_mod → element_at b x ≡ element_at b y
  unfolding element_at
  element_at-congr x y e = ground (arith, wrap-mod v x, wrap-mod v y)

  pub element_at-pushed : (i : ℕ) → element_at (pushed b) i ≡ element_at b i
  unfolding element_at
  element_at-pushed i = refl

  -- The head is the first index behind the contents.
  pub head_at : element_at b head ≡ element_at b (tail + count (some b))
  unfolding count
  head_at = element_at-congr _ _ (omega (arith, v.head_word, v.tail_word))

  pub count-pushed : count (some b) < element_count → count (some (pushed b)) ≡ suc (count (some b))
  unfolding count
  count-pushed h = omega (arith, v)

  pub count-pushed_front :
      count (some b) < element_count → count (some (pushed_front b)) ≡ suc (count (some b))
  unfolding count
  count-pushed_front h = omega (arith, v)

  pub count-popped : 0 < count (some b) → suc (count (some (popped b))) ≡ count (some b)
  unfolding count
  count-popped h = omega (arith, v)

  pub pushed-IsValid : count (some b) < element_count → IsValid (pushed b)
  unfolding count
  pushed-IsValid h = record {
    positive = v.positive;
    divides = v.divides;
    word = v.word;
    fits = v.fits;
    head_word = omega arith;
    tail_word = v.tail_word;
    within = omega (arith, v);
  }

  pub pushed_front-IsValid : count (some b) < element_count → IsValid (pushed_front b)
  unfolding count
  pushed_front-IsValid h = record {
    positive = v.positive;
    divides = v.divides;
    word = v.word;
    fits = v.fits;
    head_word = v.head_word;
    tail_word = omega arith;
    within = omega (arith, v);
  }

  pub popped-IsValid : 0 < count (some b) → IsValid (popped b)
  unfolding count
  popped-IsValid h = record {
    positive = v.positive;
    divides = v.divides;
    word = v.word;
    fits = v.fits;
    head_word = v.head_word;
    tail_word = omega arith;
    within = omega (arith, v);
  }

  -- While there is room, the slot behind the contents is none of theirs.
  pub head-Apart :
      (k : ℕ)
      → count (some b) < element_count
      → k < count (some b)
      → Apart (element_at b head) element_size (element_at b (tail + k)) element_size
  head-Apart k room h =
      let d : ℕ = count (some b) - k in
      let there : tail + k + d ≡ tail + count (some b) = omega arith in
      let apart : Apart (element_at b (tail + k + d)) element_size (element_at b (tail + k))
          element_size =
        element_at-Apart v (tail + k) d (omega arith) (omega arith) in
      rw (head_at, ← there) apart

  -- Nor is the slot before the tail.
  pub before-Apart :
      (k : ℕ)
      → count (some b) < element_count
      → k < count (some b)
      → Apart (element_at b (sub32 tail 1)) element_size (element_at b (tail + k)) element_size
  before-Apart k room h =
      let there : element_at b (tail + k) ≡ element_at b (sub32 tail 1 + suc k) =
        element_at-congr _ _ (omega (arith, v.tail_word)) in
      rw there
        (Apart-sym _ _ _ _ (element_at-Apart v (sub32 tail 1) (suc k) (omega arith) (omega arith)))

  -- A new element behind the contents, which the change of storage spares.
  pub contents-pushed :
      (m g : Memory)
      → count (some b) < element_count
      → ((k : ℕ) → k < count (some b) → element g b (tail + k) ≡ element m b (tail + k))
      → contents g (pushed b) ≡ contents m b ++ element g b head ∷ []
  unfolding element_at
  contents-pushed m g room same =
      rw
        (
          count-pushed room,
          head_at,
          ← window-congr (element g b) (element m b) tail tail (count (some b)) same,
        )
        (window-suc (element g b) tail (count (some b)))

  -- A new element before the tail.
  pub contents-pushed_front :
      (m g : Memory)
      → count (some b) < element_count
      → ((k : ℕ) → k < count (some b) → element g b (tail + k) ≡ element m b (tail + k))
      → contents g (pushed_front b) ≡ element g b (sub32 tail 1) ∷ contents m b
  unfolding element_at
  contents-pushed_front m g room same = rw (count-pushed_front room) (
      ap (◌∷◌ (element g b (sub32 tail 1))) (
        window-congr (element g b) (element m b) (sub32 tail 1 + 1) tail (count (some b))
          λ k h. moved g k ∙ same k h))
    where
      moved : (g : Memory) (k : ℕ) → element g b (sub32 tail 1 + 1 + k) ≡ element g b (tail + k)
      moved g k =
          ap (λ a. bytes g a element_size) (element_at-congr _ _ (omega (arith, v.tail_word)))

  -- One element less at the front.
  pub contents-popped :
      (m g : Memory)
      → 0 < count (some b)
      → ((k : ℕ) → k < count (some b) → element g b (tail + k) ≡ element m b (tail + k))
      → contents m b ≡ element m b tail ∷ contents g (popped b)
  unfolding element_at
  contents-popped m g some_left same = rw (← count-popped some_left) (
      ap (◌∷◌ (element m b tail)) (
        window-congr (element m b) (element g b) (tail + 1) (add32 tail 1) (count (some (popped b)))
          λ k h.
            ap (element m b) (omega arith)
            ∙ sym (same (suc k) (omega (arith, count-popped some_left)))
            ∙ moved k))
    where
      moved : (k : ℕ) → element g b (tail + suc k) ≡ element g b (add32 tail 1 + k)
      moved k = ap (λ a. bytes g a element_size) (element_at-congr _ _ (omega (arith, v.tail_word)))
