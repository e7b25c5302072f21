-- ===== src/Mpu/Create.antt =====
-- The unit that `mpu_create` makes.
use native.Mathlib.Nat.{dvd-mul_right}
use umtp.Base.{true, false, ℕ, ◌+◌, ◌*◌, ◌^◌, ◌≡◌, refl, ap, ap₂, inl, some, none, [], arith}
use umtp.RingBuf.{RingBuffer}
use umtp.RingBuf.Valid.{IsValid}
use umtp.RingBuf.Slots.{init-slots}
use umtp.Errno.{Errno}
use umtp.Mpu.{
  Mpu, max_pdu_count, packet_size, new_queue, mpu_create, mpu_start, mpu_stop, recv, send,
}
use umtp.Mpu.Queue.{MpuIsValid}
use umtp.Mpu.Drain.{queued}

-- A queue as `mpu_create` makes it, at an address.
abbrev fresh : ℕ → RingBuffer
fresh buffer = record {
  buffer = buffer;
  element_size = packet_size;
  element_count = max_pdu_count;
  head = 0;
  tail = 0;
}

fresh-IsValid : (buffer : ℕ) → IsValid (fresh buffer)
fresh-IsValid buffer = record {
  positive = omega arith;
  divides = dvd-mul_right 16 (2 ^ 28);
  word = omega arith;
  fits = omega arith;
  head_word = omega arith;
  tail_word = omega arith;
  within = omega arith;
}

new_queue-fresh : (old : RingBuffer) (buffer : ℕ) → new_queue old buffer packet_size ≡ fresh buffer
unfolding new_queue
new_queue-fresh old buffer =
    ap (λ r. elim r as (λ x. RingBuffer) [ none ↦ old | some q ↦ q ])
      (init-slots old buffer packet_size 16 (λ p. p)).0

-- Whatever the memory held, `mpu_create` makes a unit whose two queues are empty, hold sixteen
-- packets each, and stand in blocks that do not overlap; the packets stay as they were.
pub mpu_create-MpuIsValid :
    (old : Mpu) (recv_buffer : ℕ)
    → (mpu : Mpu) × (mpu_create (some old) recv_buffer ≡ some mpu)
      × MpuIsValid mpu
      × (queued recv mpu ≡ [])
      × (queued send mpu ≡ [])
      × (mpu.recv_queue.element_count ≡ 16)
      × (mpu.send_queue.element_count ≡ 16)
      × (mpu.packets ≡ old.packets)
unfolding mpu_create
mpu_create-MpuIsValid old recv_buffer = (
  record old {
    recv_queue = fresh recv_buffer;
    send_queue = fresh (recv_buffer + 16 * packet_size);
    freed = false;
  },
  ap₂ (λ q r. some (record old { recv_queue = q; send_queue = r; freed = false }))
      (new_queue-fresh old.recv_queue recv_buffer)
      (new_queue-fresh old.send_queue (recv_buffer + 16 * packet_size)),
  record {
    recv = fresh-IsValid recv_buffer;
    send = fresh-IsValid (recv_buffer + 16 * packet_size);
    recv_size = omega arith;
    send_size = omega arith;
    apart = inl (omega arith);
    live = refl;
  },
  (init-slots old.recv_queue recv_buffer packet_size 16 old.packets).1,
  (init-slots old.send_queue (recv_buffer + 16 * packet_size) packet_size 16 old.packets).1,
  refl,
  refl,
  refl,
)

pub mpu_start-zero :
    (n : Errno) (mpu : Mpu) → mpu_start n (some mpu) 0 ≡ (0, some (record mpu { running = true }))
unfolding mpu_start
mpu_start-zero n mpu = refl

pub mpu_stop-some : (mpu : Mpu) → mpu_stop (some mpu) ≡ some (record mpu { running = false })
unfolding mpu_stop
mpu_stop-some mpu = refl
