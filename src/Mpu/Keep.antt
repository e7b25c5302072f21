-- ===== src/Mpu/Keep.antt =====
-- What the operations make of a valid unit, and that it stays valid.
use umtp.Base.{
  ℕ, ◌<◌, ◌≡◌, inl, inr, refl, sym, ap, ◌∙◌, Bool, true, false, Option, some, none, List,
  if◌then◌else◌, ◌==◌, Bool-cases, List-cases, ◌>>=◌,
}
use mathlib.Core.Path.{subst}
use umtp.Addr.{UmtpAddr}
use umtp.Errno.{Errno, negative}
use umtp.RingBuf.{RingBuffer, full, count, element_at, data_peek}
use umtp.RingBuf.Move.{pushed, popped, pushed-IsValid, popped-IsValid}
use umtp.RingBuf.Refine.{room_of}
use umtp.RingBuf.Slots.{pop-discard}
use umtp.Mpu.{
  Handler, handled, mpu_msg_handle, MpuPacket, Mpu, Side, recv, send, queue_of, with_queue, filled,
  set_packet, enqueue, mpu_put_recv, mpu_put_send, drop_packet,
}
use umtp.Mpu.Drain.{queued, msg_handle-empty, msg_handle-front}
use umtp.Mpu.Queue.{MpuIsValid, enqueue-waiting, mpu_put_send-waiting, mpu_put_recv-waiting}

-- The unit with one more packet in a queue.
abbrev pub stored : Side → Mpu → MpuPacket → Mpu
stored side mpu pkt = record (with_queue side (pushed (queue_of side mpu)) mpu) {
  packets = set_packet mpu.packets (element_at (queue_of side mpu) (queue_of side mpu).head) pkt;
}

-- The packet that the next message goes to.
abbrev pub next_packet : Side → Mpu → MpuPacket
next_packet side mpu = mpu.packets (element_at (queue_of side mpu) (queue_of side mpu).head)

abbrev pub HasRoom : Side → Mpu → Type 0
HasRoom side mpu = count (some (queue_of side mpu)) < (queue_of side mpu).element_count

pub stored-MpuIsValid :
    (side : Side) (mpu : Mpu) (pkt : MpuPacket)
    → MpuIsValid mpu
    → HasRoom side mpu
    → MpuIsValid (stored side mpu pkt)
stored-MpuIsValid recv mpu pkt v room = record {
  recv = pushed-IsValid v.recv room;
  send = v.send;
  recv_size = v.recv_size;
  send_size = v.send_size;
  apart = v.apart;
  live = v.live;
}
stored-MpuIsValid send mpu pkt v room = record {
  recv = v.recv;
  send = pushed-IsValid v.send room;
  recv_size = v.recv_size;
  send_size = v.send_size;
  apart = v.apart;
  live = v.live;
}

popped-MpuIsValid :
    (side : Side) (mpu : Mpu)
    → MpuIsValid mpu
    → 0 < count (some (queue_of side mpu))
    → MpuIsValid (with_queue side (popped (queue_of side mpu)) mpu)
popped-MpuIsValid recv mpu v some_left = record {
  recv = popped-IsValid v.recv some_left;
  send = v.send;
  recv_size = v.recv_size;
  send_size = v.send_size;
  apart = v.apart;
  live = v.live;
}
popped-MpuIsValid send mpu v some_left = record {
  recv = v.recv;
  send = popped-IsValid v.send some_left;
  recv_size = v.recv_size;
  send_size = v.send_size;
  apart = v.apart;
  live = v.live;
}

same-MpuIsValid :
    (side : Side) (mpu : Mpu)
    → MpuIsValid mpu
    → MpuIsValid (with_queue side (queue_of side mpu) mpu)
same-MpuIsValid recv mpu v = v
same-MpuIsValid send mpu v = v

pub drop_packet-MpuIsValid :
    (side : Side) (mpu : Mpu) → MpuIsValid mpu → MpuIsValid (drop_packet side mpu)
unfolding drop_packet
drop_packet-MpuIsValid side mpu v = elim (pop-discard (queue_of side mpu) (λ a. 0)) [
  | inl e ↦ rw e (same-MpuIsValid side mpu v)
  | inr (some_left, e) ↦ rw e (popped-MpuIsValid side mpu v some_left)
]

pub drop_packet-same :
    (side : Side) (mpu : Mpu)
    → ((drop_packet side mpu).running ≡ mpu.running)
      × ((drop_packet side mpu).packets ≡ mpu.packets)
unfolding drop_packet
drop_packet-same recv mpu = (refl, refl)
drop_packet-same send mpu = (refl, refl)

-- A message goes to a running unit with room.
pub mpu_put_send-room :
    (n : Errno) (mpu : Mpu) (dst : UmtpAddr) (data_ptr : ℕ) (msg : List ℕ) (len : ℕ)
    → MpuIsValid mpu
    → mpu.running ≡ true
    → full (some mpu.send_queue) ≡ false
    → mpu_put_send n (some mpu) dst data_ptr msg len
      ≡ (0, some (stored send mpu (filled dst data_ptr msg len (next_packet send mpu))))
unfolding mpu_put_send
mpu_put_send-room n mpu dst data_ptr msg len v run room =
    ap put run
    ∙ ap result (enqueue-waiting v.send v.send_size mpu.packets n dst data_ptr msg len room).0
  where
    result : (ℕ × RingBuffer) × (ℕ → MpuPacket) → ℕ × Option Mpu
    result ((ret, q), ps) = (ret, some (record mpu { send_queue = q; packets = ps }))

    put : Bool → ℕ × Option Mpu
    put b =
        if b
        then result (
            enqueue n mpu.send_queue mpu.packets (data_peek (some mpu.send_queue)) dst data_ptr msg
              len)
        else (0, some mpu)

pub mpu_put_recv-room :
    (n : Errno) (mpu : Mpu) (src : UmtpAddr) (data_ptr : ℕ) (msg : List ℕ) (len : ℕ)
    → MpuIsValid mpu
    → mpu.running ≡ true
    → full (some mpu.recv_queue) ≡ false
    → mpu_put_recv n (some mpu) src data_ptr msg len
      ≡ (0, some (stored recv mpu (filled src data_ptr msg len (next_packet recv mpu))))
unfolding mpu_put_recv
mpu_put_recv-room n mpu src data_ptr msg len v run room =
    ap put run
    ∙ ap result (enqueue-waiting v.recv v.recv_size mpu.packets n src data_ptr msg len room).0
  where
    result : (ℕ × RingBuffer) × (ℕ → MpuPacket) → ℕ × Option Mpu
    result ((ret, q), ps) = (ret, some (record mpu { recv_queue = q; packets = ps }))

    put : Bool → ℕ × Option Mpu
    put b =
        if b
        then result (
            enqueue n mpu.recv_queue mpu.packets (data_peek (some mpu.recv_queue)) src data_ptr msg
              len)
        else (0, some mpu)

-- Whether there is room or not, and whether the unit runs or not, a valid unit remains.
pub mpu_put_send-MpuIsValid :
    (n : Errno) (mpu : Mpu) (dst : UmtpAddr) (data_ptr : ℕ) (msg : List ℕ) (len : ℕ)
    → MpuIsValid mpu
    → (ret : ℕ) × (mpu' : Mpu) × (mpu_put_send n (some mpu) dst data_ptr msg len ≡ (ret, some mpu'))
      × MpuIsValid mpu'
mpu_put_send-MpuIsValid n mpu dst data_ptr msg len v = elim (Bool-cases mpu.running) [
  | inr e ↦ (0, mpu, (unfold mpu_put_send in rw e refl), v)
  | inl e ↦ elim (mpu_put_send-waiting n mpu dst data_ptr msg len v e) [
    | inl (f, done) ↦ (negative n.enomem, mpu, done, v)
    | inr (f, more) ↦ (
      0,
      _,
      mpu_put_send-room n mpu dst data_ptr msg len v e f,
      stored-MpuIsValid send mpu (filled dst data_ptr msg len (next_packet send mpu)) v
          (room_of (λ a. 0) v.send f),
    )
  ]
]

pub mpu_put_recv-MpuIsValid :
    (n : Errno) (mpu : Mpu) (src : UmtpAddr) (data_ptr : ℕ) (msg : List ℕ) (len : ℕ)
    → MpuIsValid mpu
    → (ret : ℕ) × (mpu' : Mpu) × (mpu_put_recv n (some mpu) src data_ptr msg len ≡ (ret, some mpu'))
      × MpuIsValid mpu'
mpu_put_recv-MpuIsValid n mpu src data_ptr msg len v = elim (Bool-cases mpu.running) [
  | inr e ↦ (0, mpu, (unfold mpu_put_recv in rw e refl), v)
  | inl e ↦ elim (mpu_put_recv-waiting n mpu src data_ptr msg len v e) [
    | inl (f, done) ↦ (negative n.enomem, mpu, done, v)
    | inr (f, more) ↦ (
      0,
      _,
      mpu_put_recv-room n mpu src data_ptr msg len v e f,
      stored-MpuIsValid recv mpu (filled src data_ptr msg len (next_packet recv mpu)) v
          (room_of (λ a. 0) v.recv f),
    )
  ]
]

-- Without a unit.
pub mpu_put_send-null :
    (n : Errno) (dst : UmtpAddr) (data_ptr : ℕ) (msg : List ℕ) (len : ℕ)
    → mpu_put_send n none dst data_ptr msg len ≡ (negative n.einval, none)
unfolding mpu_put_send
mpu_put_send-null n dst data_ptr msg len = refl

pub mpu_put_recv-null :
    (n : Errno) (src : UmtpAddr) (data_ptr : ℕ) (msg : List ℕ) (len : ℕ)
    → mpu_put_recv n none src data_ptr msg len ≡ (negative n.einval, none)
unfolding mpu_put_recv
mpu_put_recv-null n src data_ptr msg len = refl

abbrev pub Kept : {S : Type 0} → (Mpu × S → Type 0) → Option (Mpu × S) → Type 0
Kept {S} Q r = (mpu : Mpu) × (s : S) × (r ≡ some (mpu, s)) × Q (mpu, s)

-- A step of the unit with a handler that always returns and keeps an invariant `Q`, which also
-- survives that a packet is dropped: it returns and keeps the invariant.
module _ {S : Type 0} (Q : Mpu × S → Type 0) (side : Side) (handler : Handler S) where
  handled-Kept :
      (ret : ℕ) (mpu : Mpu) (s : S)
      → Q (mpu, s)
      → Q (drop_packet side mpu, s)
      → Kept Q (some (handled side (ret, mpu, s)))
  unfolding handled
  handled-Kept ret mpu s q dropped = elim (Bool-cases (ret == 0)) [
    | inl e ↦ (drop_packet side mpu, s, rw e refl, dropped)
    | inr e ↦ (mpu, s, rw e refl, q)
  ]

  pub mpu_msg_handle-Kept :
      ((mpu : Mpu) (s : S) → Q (mpu, s) → Q (drop_packet side mpu, s))
      → ((pkt : MpuPacket) (mpu : Mpu) (s : S)
          → Q (mpu, s)
          → (ret : ℕ) × (mpu' : Mpu) × (s' : S) × (handler pkt (mpu, s) ≡ some (ret, mpu', s'))
            × Q (mpu', s'))
      → (mpu : Mpu) (s : S) → Q (mpu, s)
      → Kept Q (mpu_msg_handle side (some handler) (mpu, s))
  mpu_msg_handle-Kept drops returns mpu s q = elim (List-cases (queued side mpu)) [
    | inl e ↦ (mpu, s, msg_handle-empty side (some handler) mpu s e, q)
    | inr (pkt, rest, e) ↦
        let (ret, mpu', s', done, q') = returns pkt mpu s q in
        subst (Kept Q)
          (sym (
            msg_handle-front side handler mpu s pkt rest e
            ∙ ap (λ r. r >>= λ r. some (handled side r)) done))
          (handled-Kept ret mpu' s' q' (drops mpu' s' q'))
  ]
