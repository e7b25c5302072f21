-- ===== src/RingBuf/Tests.antt =====
-- Runs of the ring buffer, and its theorems at a ring whose counters are about to wrap.
use native.Mathlib.Nat.{dvd-mul_right}
use umtp.Base.{◌-◌, ◌%◌, ◌^◌, ◌≡◌, inl, inr, refl, true, some, [], ◌∷◌, ◌++◌, arith}
use umtp.Deque.{push_back, push_front, pop_front}
use umtp.Bytes.{Memory, store}
use umtp.RingBuf.{RingBuffer, count, put, put_front, pop, data_peek, data_put, element_at}
use umtp.RingBuf.Valid.{IsValid}
use umtp.RingBuf.Window.{contents}
use umtp.RingBuf.Refine.{
  Holds, SameOutside, Delivered, put-push_back, put_front-push_front, pop-pop_front,
}
use umtp.RingBuf.Reserve.{data_put-data_peek}

abbrev storage : Memory
storage a = a % 256

-- Four elements of two bytes; the tail has not wrapped yet, the head has.
abbrev wrapped : RingBuffer
wrapped = record { buffer = 100; element_size = 2; element_count = 4; head = 1; tail = 2 ^ 32 - 1 }

wrapped-IsValid : IsValid wrapped
wrapped-IsValid = record {
  positive = omega arith;
  divides = dvd-mul_right 4 (2 ^ 30);
  word = omega arith;
  fits = omega arith;
  head_word = omega arith;
  tail_word = omega arith;
  within = omega arith;
}

contents-wrapped : contents storage wrapped ≡ (106 ∷ 107 ∷ []) ∷ (100 ∷ 101 ∷ []) ∷ []
unfolding count element_at
contents-wrapped = refl

put-push_back_example :
    let (done, r, g) = put (some wrapped) (some 200) storage in
    let (done', q) = push_back 4 (contents storage wrapped) (200 ∷ 201 ∷ []) in
    (done ≡ done') × Holds wrapped g r q × SameOutside wrapped storage g
put-push_back_example = put-push_back storage wrapped-IsValid 200 (inl (omega arith))

put_front-push_front_example :
    let (done, r, g) = put_front (some wrapped) (some 200) storage in
    let (done', q) = push_front 4 (contents storage wrapped) (200 ∷ 201 ∷ []) in
    (done ≡ done') × Holds wrapped g r q × SameOutside wrapped storage g
put_front-push_front_example = put_front-push_front storage wrapped-IsValid 200 (inl (omega arith))

pop-pop_front_example :
    let (done, r, g) = pop (some wrapped) (some 50) storage in
    let (done', q) = pop_front (contents storage wrapped) in
    (done ≡ done')
    × Holds wrapped g r q
    × Delivered storage wrapped-IsValid (some 50) (contents storage wrapped) g
pop-pop_front_example = pop-pop_front storage wrapped-IsValid (some 50) (inr (omega arith))

abbrev filled : Memory
filled = store (store storage 102 7) 103 8

data_put-data_peek_example :
    let (done, r) = data_put (some wrapped) (some 102) in
    (contents filled wrapped ≡ contents storage wrapped)
    × (done ≡ true)
    × Holds wrapped filled r (contents storage wrapped ++ (7 ∷ 8 ∷ []) ∷ [])
unfolding data_peek
data_put-data_peek_example =
    data_put-data_peek wrapped-IsValid storage filled 102 refl (λ a out. ground arith)
