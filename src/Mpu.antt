-- ===== src/Mpu.antt =====
-- core/mpu.c and include/mpu.h: the message process unit, two queues of packets over the ring
-- buffer. A packet is a structure at the address of its element, so the arrays `recv_buffer` and
-- `send_buffer` are a map from addresses to packets. The lock and the signal are left out: what the
-- other threads do while `mpu_task` waits is an argument. The unit is part of a larger state, on
-- whose rest, of a type `S`, the two handlers work.
pub mod Queue
pub mod Create
pub mod Drain
pub mod Keep
pub mod Thread
pub mod Clock
use umtp.Base.{
  ℕ, zero, suc, ◌+◌, ◌*◌, ◌%◌, not, ◌||◌, ◌>>=◌, [], ◌∷◌, Bool, true, false, Option, none, some,
  List, ◌==◌, ltb, if◌then◌else◌, overwrite, u16_mod,
}
use umtp.Addr.{UmtpAddr}
use umtp.Errno.{Errno, negative}
use umtp.RingBuf.{RingBuffer, data_peek, data_put, empty, peek, pop, init}

abbrev pub max_pdu_count : ℕ
max_pdu_count = 16

abbrev pub max_mpu_data : ℕ
max_mpu_data = 2000

-- `buffer` is the whole array of MAX_MPU_DATA bytes. `overrun` tells that a longer message was written to
-- it: what stands behind the array is lost then, in this packet and in the next one.
pub record MpuPacket : Type 0 where
  pub length : ℕ
  pub buffer : List ℕ
  pub addr : UmtpAddr
  pub data_ptr : ℕ
  pub overrun : Bool

-- `freed` tells that the memory was given back; what a function makes of such a unit stands for nothing.
pub record Mpu : Type 0 where
  pub recv_queue : RingBuffer
  pub send_queue : RingBuffer
  pub packets : ℕ → MpuPacket
  pub running : Bool
  pub freed : Bool

-- What is written to the packet that `ringbuf_data_peek` gave: the array has the first MAX_MPU_DATA
-- bytes, and of a longer message the others go behind it.
abbrev pub filled : UmtpAddr → ℕ → List ℕ → ℕ → MpuPacket → MpuPacket
filled addr data_ptr msg len pkt = record {
  length = len % u16_mod;
  buffer = overwrite pkt.buffer msg len;
  addr = addr;
  data_ptr = data_ptr;
  overrun = ltb max_mpu_data len;
}

abbrev pub set_packet : (ℕ → MpuPacket) → ℕ → MpuPacket → ℕ → MpuPacket
set_packet packets p pkt q = if q == p then pkt else packets q

-- `if (ringbuf_data_put(...)) ret = 0;`
pub commit : Errno → RingBuffer → Bool × Option RingBuffer → ℕ × RingBuffer
commit n q (ok, none) = (negative n.enomem, q)
commit n q (ok, some q') = ((if ok then 0 else negative n.enomem), q')

-- The part of `mpu_put_recv` and `mpu_put_send` between the guards and the signal.
pub enqueue :
    Errno
    → RingBuffer
    → (ℕ → MpuPacket)
    → Option ℕ
    → UmtpAddr
    → ℕ
    → List ℕ
    → ℕ
    → (ℕ × RingBuffer) × (ℕ → MpuPacket)
unfolding commit
enqueue n q packets none addr data_ptr msg len = ((negative n.enomem, q), packets)
enqueue n q packets (some p) addr data_ptr msg len = (
  commit n q (data_put (some q) (some p)),
  set_packet packets p (filled addr data_ptr msg len (packets p)),
)

-- `msg` is never NULL in the callers, and `len` is the length of an array's part, never negative.
pub mpu_put_recv : Errno → Option Mpu → UmtpAddr → ℕ → List ℕ → ℕ → ℕ × Option Mpu
unfolding enqueue
mpu_put_recv n none src data_ptr msg len = (negative n.einval, none)
mpu_put_recv n (some mpu) src data_ptr msg len =
    let ((ret, q), ps) =
      enqueue n mpu.recv_queue mpu.packets (data_peek (some mpu.recv_queue)) src data_ptr msg len in
    if mpu.running then (ret, some (record mpu { recv_queue = q; packets = ps })) else (0, some mpu)

pub mpu_put_send : Errno → Option Mpu → UmtpAddr → ℕ → List ℕ → ℕ → ℕ × Option Mpu
unfolding enqueue
mpu_put_send n none dst data_ptr msg len = (negative n.einval, none)
mpu_put_send n (some mpu) dst data_ptr msg len =
    let ((ret, q), ps) =
      enqueue n mpu.send_queue mpu.packets (data_peek (some mpu.send_queue)) dst data_ptr msg len in
    if mpu.running then (ret, some (record mpu { send_queue = q; packets = ps })) else (0, some mpu)

-- `ringbuf_init` of a queue; the argument is not NULL.
pub new_queue : (old : RingBuffer) (buffer element_size : ℕ) → RingBuffer
new_queue old buffer element_size = elim (init (some old) buffer element_size max_pdu_count) [
  | none ↦ old
  | some q ↦ q
]

-- `sizeof(struct mpu_packet)`: 2, 2000 and 8 bytes, 6 of padding, and a pointer of 8.
abbrev pub packet_size : ℕ
packet_size = 2024

-- `none` for -ENOMEM, if `malloc` gives NULL. `old` is what the structure held, and `recv_buffer` the
-- address of that field, which `send_buffer` follows.
pub mpu_create : (memory : Option Mpu) (recv_buffer : ℕ) → Option Mpu
unfolding new_queue
mpu_create none recv_buffer = none
mpu_create (some old) recv_buffer = some (record old {
  recv_queue = new_queue old.recv_queue recv_buffer packet_size;
  send_queue = new_queue old.send_queue (recv_buffer + max_pdu_count * packet_size) packet_size;
  freed = false;
})

pub mpu_start : Errno → Option Mpu → (pthread_create : ℕ) → ℕ × Option Mpu
mpu_start n none ret = (negative n.einval, none)
mpu_start n (some mpu) ret =
    if ret == 0
    then (0, some (record mpu { running = true }))
    else (ret, some (record mpu { running = false }))

-- Up to the wait for the thread.
pub mpu_stop : Option Mpu → Option Mpu
mpu_stop none = none
mpu_stop (some mpu) = some (record mpu { running = false })

-- The unit is freed, but the pointers to it stay.
pub mpu_destroy : Option Mpu → Option Mpu
mpu_destroy none = none
mpu_destroy (some mpu) = some (record mpu { freed = true })

pub data Side : Type 0 where
  recv send : Side

abbrev pub queue_of : Side → Mpu → RingBuffer
queue_of recv mpu = mpu.recv_queue
queue_of send mpu = mpu.send_queue

abbrev pub with_queue : Side → RingBuffer → Mpu → Mpu
with_queue recv q mpu = record mpu { recv_queue = q }
with_queue send q mpu = record mpu { send_queue = q }

-- `recv_handler` or `send_handler`: the status, and the state after it; `none` if it does not end.
abbrev pub Handler : Type 0 → Type 0
Handler S = MpuPacket → Mpu × S → Option (ℕ × Mpu × S)

abbrev pub popped_queue : RingBuffer → Bool × Option RingBuffer × (ℕ → ℕ) → RingBuffer
popped_queue q (done, none, m) = q
popped_queue q (done, some q', m) = q'

-- `(void)ringbuf_pop(queue, NULL);`, which reads no storage.
pub drop_packet : Side → Mpu → Mpu
drop_packet side mpu =
    with_queue side
      (popped_queue (queue_of side mpu) (pop (some (queue_of side mpu)) none (λ a. 0))) mpu

-- After the handler: an error leaves the packet in the queue.
pub handled : {S : Type 0} → Side → ℕ × Mpu × S → Mpu × S
unfolding drop_packet
handled side (ret, mpu, s) = if ret == 0 then (drop_packet side mpu, s) else (mpu, s)

-- `if (pkt && handler) { ... }`
pub handle_packet : {S : Type 0} → Side → Option (Handler S) → Option ℕ → Mpu × S → Option (Mpu × S)
unfolding handled
handle_packet side none pkt st = some st
handle_packet side (some handler) none st = some st
handle_packet side (some handler) (some pkt) st =
    handler (st.0.packets pkt) st >>= λ r. some (handled side r)

pub mpu_msg_handle : {S : Type 0} → Side → Option (Handler S) → Mpu × S → Option (Mpu × S)
unfolding handle_packet
mpu_msg_handle side handler st =
    if empty (some (queue_of side st.0))
    then some st
    else handle_packet side handler (peek (some (queue_of side st.0))) st

pub record Handlers (S : Type 0) : Type 0 where
  pub recv_handler : Option (Handler S)
  pub send_handler : Option (Handler S)

-- One round of the inner loop of `mpu_task`.
pub mpu_round : {S : Type 0} → Handlers S → Mpu × S → Option (Mpu × S)
unfolding mpu_msg_handle
mpu_round hs st = mpu_msg_handle recv hs.recv_handler st >>= mpu_msg_handle send hs.send_handler

-- The inner loop of `mpu_task` on fuel; `none` if the fuel runs out.
pub mpu_drain : {S : Type 0} → ℕ → Handlers S → Mpu × S → Option (Mpu × S)
unfolding mpu_round
mpu_drain zero hs st = none
mpu_drain (suc fuel) hs st =
    let next = mpu_round hs st >>= mpu_drain fuel hs in
    if not (empty (some st.0.send_queue)) || not (empty (some st.0.recv_queue))
    then next
    else some st

-- The body of the outer loop after `pthread_cond_timedwait` returned `ret`.
pub mpu_wake : {S : Type 0} → Errno → ℕ → Handlers S → ℕ → Mpu × S → Option (Bool × Mpu × S)
unfolding mpu_drain
mpu_wake n fuel hs ret st =
    if ret == 0
    then (mpu_drain fuel hs st >>= λ r. some (true, r.0, r.1))
    else if ret == n.etimedout
    then some (true, st.0, st.1)
    else some (false, record st.0 { running = false }, st.1)

-- `mpu_task`: for each wait, what the other threads do meanwhile, and what it returns. The result
-- tells whether the thread still runs when the list ends.
pub mpu_task :
    {S : Type 0}
    → Errno
    → ℕ
    → Handlers S
    → List ((Mpu × S → Mpu × S) × ℕ)
    → Mpu × S
    → Option (Bool × Mpu × S)
unfolding mpu_wake
mpu_task n fuel hs [] st = some (st.0.running, st.0, st.1)
mpu_task n fuel hs ((others, ret) ∷ waits) st =
    let woken = mpu_wake n fuel hs ret (others st) >>= λ r.
    let later = mpu_task n fuel hs waits (r.1, r.2) in if r.0 then later else some r in
    if st.0.running then woken else some (false, st.0, st.1)
