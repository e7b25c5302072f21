-- ===== src/RingBuf/Slots.antt =====
-- A ring buffer whose elements are used in place: values that lie at the slots, read at the tail
-- without a copy.
use umtp.Base.{
  ℕ, zero, suc, ◌+◌, ◌<◌, ◌≡◌, refl, ap, ◌∙◌, true, some, none, List, [], ◌∷◌, arith, ◌==◌, ==_ne,
  add32, Bool-cases, inl, inr, ◌⊎◌, false,
}
use umtp.Bytes.{Memory}
use umtp.RingBuf.{RingBuffer, count, full, empty, element_at, peek, pop, init}
use umtp.RingBuf.Valid.{IsValid}
use umtp.RingBuf.Window.{window, window-congr}
use umtp.RingBuf.Move.{popped, popped-IsValid, count-popped, element_at-congr}

module _ {ℓ} {A : Type ℓ} where
  -- What lies at the slots from the tail on, oldest first.
  abbrev pub slots : RingBuffer → (ℕ → A) → List A
  slots q f = window (λ i. f (element_at q i)) q.tail (count (some q))

  window-cons :
      (f : ℕ → A) (i n : ℕ) (x : A) (xs : List A)
      → window f i n ≡ x ∷ xs
      → (k : ℕ) × (n ≡ suc k) × (f i ≡ x) × (window f (i + 1) k ≡ xs)
  window-cons f i zero x xs e = cc
  window-cons f i (suc n) x xs e = (n, refl, cc, cc)

  window-nil : (f : ℕ → A) (i n : ℕ) → window f i n ≡ [] → n ≡ 0
  window-nil f i zero e = refl
  window-nil f i (suc n) e = cc

  pub slots-count : (q : RingBuffer) (f : ℕ → A) → slots q f ≡ [] → count (some q) ≡ 0
  slots-count q f e = window-nil (λ i. f (element_at q i)) q.tail (count (some q)) e

  pub slots-empty : (q : RingBuffer) (f : ℕ → A) → slots q f ≡ [] → empty (some q) ≡ true
  unfolding empty
  slots-empty q f e = rw (slots-count q f e) refl

  -- With a value at the front: the ring buffer is not empty, `ringbuf_peek` gives the place of that
  -- value, and `ringbuf_pop` without a target leaves the others.
  pub slots-front :
      (q : RingBuffer) (f : ℕ → A) (x : A) (xs : List A)
      → slots q f ≡ x ∷ xs
      → (empty (some q) ≡ false)
        × (peek (some q) ≡ some (element_at q q.tail))
        × (f (element_at q q.tail) ≡ x)
        × ((m : Memory) → pop (some q) none m ≡ (true, some (popped q), m))
  unfolding empty peek pop
  slots-front q f x xs e =
      let (k, n, here, rest) =
        window-cons (λ i. f (element_at q i)) q.tail (count (some q)) x xs e in
      let some_left : (count (some q) == 0) ≡ false = ==_ne (count (some q)) 0 (omega (arith, n)) in
      (some_left, rw some_left refl, here, λ m. rw some_left refl)

  pub slots-popped :
      (q : RingBuffer) (f : ℕ → A) (x : A) (xs : List A)
      → IsValid q
      → slots q f ≡ x ∷ xs
      → IsValid (popped q) × (slots (popped q) f ≡ xs)
  unfolding element_at
  slots-popped q f x xs v e =
      let (k, n, here, rest) =
        window-cons (λ i. f (element_at q i)) q.tail (count (some q)) x xs e in
      let fewer : count (some (popped q)) ≡ k =
        omega (arith, count-popped v (omega (arith, n)), n) in
      (
        popped-IsValid v (omega (arith, n)),
        ap (window (λ i. f (element_at (popped q) i)) (add32 q.tail 1)) fewer
            ∙ window-congr (λ i. f (element_at (popped q) i)) (λ i. f (element_at q i))
                (add32 q.tail 1) (q.tail + 1) k
                (λ j h. ap f (element_at-congr v _ _ (omega (arith, v.tail_word))))
            ∙ rest,
      )

pub init-slots {ℓ} :
    {A : Type ℓ} (old : RingBuffer) (buffer size cnt : ℕ) (f : ℕ → A)
    → let q : RingBuffer = record {
      buffer = buffer;
      element_size = size;
      element_count = cnt;
      head = 0;
      tail = 0;
    } in
      (init (some old) buffer size cnt ≡ some q) × (slots q f ≡ [])
unfolding init count
init-slots old buffer size cnt f = (refl, refl)

pub room-full : (q : RingBuffer) → count (some q) < q.element_count → full (some q) ≡ false
unfolding full
room-full q room = ==_ne (count (some q)) q.element_count (omega arith)

-- `ringbuf_pop` without a target moves the tail, if there is an element.
pub pop-discard :
    (q : RingBuffer) (m : Memory)
    → (pop (some q) none m ≡ (false, some q, m))
      ⊎ ((0 < count (some q)) × (pop (some q) none m ≡ (true, some (popped q), m)))
unfolding empty pop
pop-discard q m = elim (Bool-cases (count (some q) == 0)) [
  | inl e ↦ inl (rw e refl)
  | inr e ↦ inr (ground arith, rw e refl)
]
