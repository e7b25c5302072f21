-- ===== src/RingBuf/Window.antt =====
-- What a ring buffer holds: the elements from the tail on, oldest first, each a block of bytes.
use native.Mathlib.Nat.{add-zero}
use umtp.Base.{
  ℕ, zero, suc, ◌+◌, ◌<◌, ◌≡◌, refl, ap, ap₂, ◌∙◌, List, [], ◌∷◌, ◌++◌, some, arith, length,
}
use umtp.Bytes.{Memory, bytes}
use umtp.RingBuf.{RingBuffer, count, element_at}

abbrev pub Element : Type 0
Element = List ℕ

module _ {ℓ} {A : Type ℓ} where
  -- The `n` values of `f` from `i` on.
  abbrev pub window : (ℕ → A) → ℕ → ℕ → List A
  window f i zero = []
  window f i (suc n) = f i ∷ window f (i + 1) n

  pub length-window : (f : ℕ → A) (i n : ℕ) → length (window f i n) ≡ n
  length-window f i zero = refl
  length-window f i (suc n) = ap suc (length-window f (i + 1) n)

  pub window-congr :
      (f g : ℕ → A) (i j n : ℕ)
      → ((k : ℕ) → k < n → f (i + k) ≡ g (j + k))
      → window f i n ≡ window g j n
  window-congr f g i j zero same = refl
  window-congr f g i j (suc n) same = ap₂ ◌∷◌ first (window-congr f g (i + 1) (j + 1) n later)
    where
      first : f i ≡ g j
      first = rw (add-zero i, add-zero j) at (same 0 (omega arith))

      later : (k : ℕ) → k < n → f (i + 1 + k) ≡ g (j + 1 + k)
      later k h = ap f (omega arith) ∙ same (suc k) (omega arith) ∙ ap g (omega arith)

  -- The window that reaches one further has one more value at its end.
  pub window-suc : (f : ℕ → A) (i n : ℕ) → window f i (suc n) ≡ window f i n ++ f (i + n) ∷ []
  window-suc f i zero = ap (λ k. f k ∷ []) (omega arith)
  window-suc f i (suc n) =
      ap (◌∷◌ (f i))
        (window-suc f (i + 1) n ∙ ap (λ k. window f (i + 1) n ++ f k ∷ []) (omega arith))

abbrev pub element : Memory → RingBuffer → ℕ → Element
element m b i = bytes m (element_at b i) b.element_size

abbrev pub contents : Memory → RingBuffer → List Element
contents m b = window (element m b) b.tail (count (some b))

pub length-contents : (m : Memory) (b : RingBuffer) → length (contents m b) ≡ count (some b)
length-contents m b = length-window (element m b) b.tail (count (some b))
