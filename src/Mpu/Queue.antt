-- ===== src/Mpu/Queue.antt =====
-- The queues of packets: what each ring buffer holds as a list of packets, oldest first.
use umtp.Base.{
  ℕ, ◌+◌, ◌<◌, ◌≡◌, ◌≢◌, ◌⊎◌, inl, inr, refl, sym, ap, ap₂, ◌∙◌, Bool, true, false, Option, some,
  List, [], ◌∷◌, ◌++◌, arith, if◌then◌else◌, ==_refl, ==_ne, Bool-cases,
}
use umtp.Addr.{UmtpAddr}
use umtp.Errno.{Errno, negative}
use umtp.Bytes.{Apart, Apart-sym}
use umtp.RingBuf.{RingBuffer, count, full, element_at, data_peek}
use umtp.RingBuf.Valid.{IsValid, element_at_bounds}
use umtp.RingBuf.Window.{window, window-congr, window-suc}
use umtp.RingBuf.Move.{pushed, pushed-IsValid, element_at-pushed, count-pushed, head_at, head-Apart}
use umtp.RingBuf.Refine.{block_size, room_of}
use umtp.RingBuf.Reserve.{data_peek-full, data_peek-slot, data_put-slot}
use umtp.Mpu.{MpuPacket, Mpu, filled, set_packet, commit, enqueue, mpu_put_recv, mpu_put_send}

abbrev pub waiting : RingBuffer → (ℕ → MpuPacket) → List MpuPacket
waiting q packets = window (λ i. packets (element_at q i)) q.tail (count (some q))

module _ {q : RingBuffer} (v : IsValid q) (size : 0 < q.element_size)
    (packets : ℕ → MpuPacket) where
  open q use {head, tail}

  -- The packet at the head is none of those that wait.
  head_spared :
      (pkt : MpuPacket) (k : ℕ)
      → count (some q) < q.element_count
      → k < count (some q)
      → set_packet packets (element_at q head) pkt (element_at q (tail + k))
        ≡ packets (element_at q (tail + k))
  head_spared pkt k room h =
      rw
        (==_ne (element_at q (tail + k)) (element_at q head) (grind (arith, head-Apart v k room h)))
        refl

  waiting-pushed :
      (pkt : MpuPacket)
      → count (some q) < q.element_count
      → window
          (λ i. set_packet packets (element_at q head) pkt (element_at q i))
          tail
          (count (some (pushed q)))
        ≡ waiting q packets ++ pkt ∷ []
  waiting-pushed pkt room =
      ap (window here tail) (count-pushed v room)
      ∙ window-suc here tail (count (some q))
      ∙ ap₂ (λ ps p. ps ++ p ∷ [])
          (window-congr here (λ i. packets (element_at q i)) tail tail (count (some q))
            (λ k h. head_spared pkt k room h))
          (ap (set_packet packets (element_at q head) pkt) (sym (head_at v))
            ∙ rw (==_refl (element_at q head)) refl)
    where
      here : ℕ → MpuPacket
      here i = set_packet packets (element_at q head) pkt (element_at q i)

  pub enqueue-waiting :
      (n : Errno) (addr : UmtpAddr) (data_ptr : ℕ) (msg : List ℕ) (len : ℕ)
      → full (some q) ≡ false
      → let pkt = filled addr data_ptr msg len (packets (element_at q head)) in
        let packets' = set_packet packets (element_at q head) pkt in
        (enqueue n q packets (data_peek (some q)) addr data_ptr msg len ≡ ((0, pushed q), packets'))
        × IsValid (pushed q)
        × (waiting (pushed q) packets' ≡ waiting q packets ++ pkt ∷ [])
  unfolding enqueue commit
  enqueue-waiting n addr data_ptr msg len room =
      let room' : count (some q) < q.element_count = room_of (λ a. 0) v room in
      (
        rw (data_peek-slot q room, data_put-slot q room) refl,
        pushed-IsValid v room',
        window-congr
              (λ i.
                set_packet packets (element_at q head)
                  (filled addr data_ptr msg len (packets (element_at q head)))
                  (element_at (pushed q) i))
              (λ i.
                set_packet packets (element_at q head)
                  (filled addr data_ptr msg len (packets (element_at q head))) (element_at q i))
              tail tail (count (some (pushed q)))
              (λ k h.
                ap
                  (set_packet packets (element_at q head)
                    (filled addr data_ptr msg len (packets (element_at q head))))
                  (element_at-pushed v (tail + k)))
            ∙ waiting-pushed (filled addr data_ptr msg len (packets (element_at q head))) room',
      )

pub enqueue-full :
    (n : Errno) (q : RingBuffer) (packets : ℕ → MpuPacket) (addr : UmtpAddr) (data_ptr : ℕ)
    (msg : List ℕ) (len : ℕ)
    → full (some q) ≡ true
    → enqueue n q packets (data_peek (some q)) addr data_ptr msg len
      ≡ ((negative n.enomem, q), packets)
unfolding enqueue
enqueue-full n q packets addr data_ptr msg len e = rw (data_peek-full q e) refl

-- The two queues stand on valid ring buffers, with packets of at least one byte, in blocks that do
-- not overlap.
pub record MpuIsValid (mpu : Mpu) : Type 0 where
  pub recv : IsValid mpu.recv_queue
  pub send : IsValid mpu.send_queue
  pub recv_size : 0 < mpu.recv_queue.element_size
  pub send_size : 0 < mpu.send_queue.element_size
  pub apart :
      Apart mpu.recv_queue.buffer
        (block_size mpu.recv_queue)
        mpu.send_queue.buffer
        (block_size mpu.send_queue)
  pub live : mpu.freed ≡ false

-- A packet of one queue is no packet of the other.
pub other_queue :
    (q r : RingBuffer) (packets : ℕ → MpuPacket) (pkt : MpuPacket) (i : ℕ)
    → IsValid q
    → IsValid r
    → 0 < q.element_size
    → 0 < r.element_size
    → Apart q.buffer (block_size q) r.buffer (block_size r)
    → waiting r (set_packet packets (element_at q i) pkt) ≡ waiting r packets
other_queue q r packets pkt i v w pos pos' apart =
    window-congr (λ j. set_packet packets (element_at q i) pkt (element_at r j))
      (λ j. packets (element_at r j)) r.tail r.tail (count (some r))
      λ k h. rw (==_ne (element_at r (r.tail + k)) (element_at q i) (different (r.tail + k))) refl
  where
    different : (j : ℕ) → element_at r j ≢ element_at q i
    different j e = omega (arith, apart, element_at_bounds v i, element_at_bounds w j)

-- `mpu_put_send` on a running unit appends the message to the send queue as one packet and returns
-- 0 if there is room, and returns -ENOMEM and changes nothing if there is none. What waits in the
-- receive queue stays the same.
pub mpu_put_send-waiting :
    (n : Errno) (mpu : Mpu) (dst : UmtpAddr) (data_ptr : ℕ) (msg : List ℕ) (len : ℕ)
    → MpuIsValid mpu
    → mpu.running ≡ true
    → ((full (some mpu.send_queue) ≡ true)
        × (mpu_put_send n (some mpu) dst data_ptr msg len ≡ (negative n.enomem, some mpu)))
      ⊎ ((full (some mpu.send_queue) ≡ false)
          × ((mpu' : Mpu) × (old : MpuPacket) × (mpu_put_send n (some mpu) dst data_ptr msg len
                ≡ (0, some mpu'))
              × IsValid mpu'.send_queue
              × (waiting mpu'.send_queue mpu'.packets
                  ≡ waiting mpu.send_queue mpu.packets ++ filled dst data_ptr msg len old ∷ [])
              × (waiting mpu'.recv_queue mpu'.packets ≡ waiting mpu.recv_queue mpu.packets)))
unfolding mpu_put_send
mpu_put_send-waiting n mpu dst data_ptr msg len v run =
    elim (Bool-cases (full (some mpu.send_queue))) [
      | inl e ↦ inl (
        e,
        ap put run ∙ ap stored (enqueue-full n mpu.send_queue mpu.packets dst data_ptr msg len e),
      )
      | inr e ↦
          let done = enqueue-waiting v.send v.send_size mpu.packets n dst data_ptr msg len e in
          let old : MpuPacket = mpu.packets (element_at mpu.send_queue mpu.send_queue.head) in
          inr (
            e,
            (
              _,
              old,
              ap put run ∙ ap stored done.0,
              done.1,
              done.2,
              other_queue mpu.send_queue mpu.recv_queue mpu.packets
                  (filled dst data_ptr msg len old) mpu.send_queue.head v.send v.recv v.send_size
                  v.recv_size (Apart-sym _ _ _ _ v.apart),
            ),
          )
    ]
  where
    result : (ℕ × RingBuffer) × (ℕ → MpuPacket)
    result =
        enqueue n mpu.send_queue mpu.packets (data_peek (some mpu.send_queue)) dst data_ptr msg len

    stored : (ℕ × RingBuffer) × (ℕ → MpuPacket) → ℕ × Option Mpu
    stored ((ret, q), ps) = (ret, some (record mpu { send_queue = q; packets = ps }))

    put : Bool → ℕ × Option Mpu
    put b = if b then stored result else (0, some mpu)

-- `mpu_put_recv` on a running unit appends the message to the receive queue as one packet and returns
-- 0 if there is room, and returns -ENOMEM and changes nothing if there is none. What waits in the
-- send queue stays the same.
pub mpu_put_recv-waiting :
    (n : Errno) (mpu : Mpu) (src : UmtpAddr) (data_ptr : ℕ) (msg : List ℕ) (len : ℕ)
    → MpuIsValid mpu
    → mpu.running ≡ true
    → ((full (some mpu.recv_queue) ≡ true)
        × (mpu_put_recv n (some mpu) src data_ptr msg len ≡ (negative n.enomem, some mpu)))
      ⊎ ((full (some mpu.recv_queue) ≡ false)
          × ((mpu' : Mpu) × (old : MpuPacket) × (mpu_put_recv n (some mpu) src data_ptr msg len
                ≡ (0, some mpu'))
              × IsValid mpu'.recv_queue
              × (waiting mpu'.recv_queue mpu'.packets
                  ≡ waiting mpu.recv_queue mpu.packets ++ filled src data_ptr msg len old ∷ [])
              × (waiting mpu'.send_queue mpu'.packets ≡ waiting mpu.send_queue mpu.packets)))
unfolding mpu_put_recv
mpu_put_recv-waiting n mpu src data_ptr msg len v run =
    elim (Bool-cases (full (some mpu.recv_queue))) [
      | inl e ↦ inl (
        e,
        ap put run ∙ ap stored (enqueue-full n mpu.recv_queue mpu.packets src data_ptr msg len e),
      )
      | inr e ↦
          let done = enqueue-waiting v.recv v.recv_size mpu.packets n src data_ptr msg len e in
          let old : MpuPacket = mpu.packets (element_at mpu.recv_queue mpu.recv_queue.head) in
          inr (
            e,
            (
              _,
              old,
              ap put run ∙ ap stored done.0,
              done.1,
              done.2,
              other_queue mpu.recv_queue mpu.send_queue mpu.packets
                  (filled src data_ptr msg len old) mpu.recv_queue.head v.recv v.send v.recv_size
                  v.send_size v.apart,
            ),
          )
    ]
  where
    result : (ℕ × RingBuffer) × (ℕ → MpuPacket)
    result =
        enqueue n mpu.recv_queue mpu.packets (data_peek (some mpu.recv_queue)) src data_ptr msg len

    stored : (ℕ × RingBuffer) × (ℕ → MpuPacket) → ℕ × Option Mpu
    stored ((ret, q), ps) = (ret, some (record mpu { recv_queue = q; packets = ps }))

    put : Bool → ℕ × Option Mpu
    put b = if b then stored result else (0, some mpu)
