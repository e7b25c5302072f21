-- ===== src/RingBuf.antt =====
-- core/ringbuf.c and include/ringbuf.h. A ring buffer is the C structure: the address of its block
-- of storage, the size and number of the elements, and two 32-bit counters that run freely. The
-- block itself lies in a byte store, which the operations that copy data return anew. A pointer
-- that may be NULL is an `Option`, with `none` for NULL.
pub mod Valid
pub mod Window
pub mod Refine
pub mod Move
pub mod Reserve
pub mod Slots
mod Tests
use umtp.Base.{
  ℕ, ◌+◌, ◌%◌, Bool, true, false, Option, none, some, not, ◌==◌, if◌then◌else◌, add32, sub32, mul32,
}
use umtp.Bytes.{Memory, copy}

pub record RingBuffer : Type 0 where
  pub buffer : ℕ
  pub element_size : ℕ
  pub element_count : ℕ
  pub head : ℕ
  pub tail : ℕ

-- `head - tail` in unsigned arithmetic.
pub count : Option RingBuffer → ℕ
count none = 0
count (some b) = sub32 b.head b.tail

pub full : Option RingBuffer → Bool
unfolding count
full none = true
full (some b) = count (some b) == b.element_count

pub empty : Option RingBuffer → Bool
unfolding count
empty none = true
empty (some b) = count (some b) == 0

-- `b->buffer + ((i % b->element_count) * b->element_size)`, for `i` the head or the tail.
pub element_at : RingBuffer → ℕ → ℕ
element_at b i = b.buffer + mul32 (i % b.element_count) b.element_size

pub peek : Option RingBuffer → Option ℕ
unfolding empty element_at
peek none = none
peek (some b) = if empty (some b) then none else some (element_at b b.tail)

-- The copy to `data_element` is skipped at NULL.
copy_out : Memory → Option ℕ → ℕ → ℕ → Memory
copy_out m none src n = m
copy_out m (some p) src n = copy m p src n

pub pop : Option RingBuffer → Option ℕ → Memory → Bool × Option RingBuffer × Memory
unfolding empty element_at copy_out
pop none data_element m = (false, none, m)
pop (some b) data_element m = if empty (some b) then (false, some b, m) else (
  true,
  some (record b { tail = add32 b.tail 1 }),
  copy_out m data_element (element_at b b.tail) b.element_size,
)

pub put : Option RingBuffer → Option ℕ → Memory → Bool × Option RingBuffer × Memory
unfolding full element_at
put none data_element m = (false, none, m)
put (some b) none m = (false, some b, m)
put (some b) (some p) m = if full (some b) then (false, some b, m) else (
  true,
  some (record b { head = add32 b.head 1 }),
  copy m (element_at b b.head) p b.element_size,
)

-- The tail moves back first, and the element goes where it then points.
pub put_front : Option RingBuffer → Option ℕ → Memory → Bool × Option RingBuffer × Memory
unfolding full element_at
put_front none data_element m = (false, none, m)
put_front (some b) none m = (false, some b, m)
put_front (some b) (some p) m = if full (some b) then (false, some b, m) else (
  true,
  some (record b { tail = sub32 b.tail 1 }),
  copy m (element_at b (sub32 b.tail 1)) p b.element_size,
)

pub data_peek : Option RingBuffer → Option ℕ
unfolding full element_at
data_peek none = none
data_peek (some b) = if full (some b) then none else some (element_at b b.head)

-- `ring_data == data_element`, where `data_element` may be NULL.
abbrev same_pointer : ℕ → Option ℕ → Bool
same_pointer p none = false
same_pointer p (some q) = p == q

pub data_put : Option RingBuffer → Option ℕ → Bool × Option RingBuffer
unfolding full element_at
data_put none data_element = (false, none)
data_put (some b) data_element =
    if full (some b)
    then (false, some b)
    else if same_pointer (element_at b b.head) data_element
    then (true, some (record b { head = add32 b.head 1 }))
    else (false, some b)

pub init : Option RingBuffer → ℕ → ℕ → ℕ → Option RingBuffer
init none buffer element_size element_count = none
init (some b) buffer element_size element_count = some (record {
  buffer = buffer;
  element_size = element_size;
  element_count = element_count;
  head = 0;
  tail = 0;
})
