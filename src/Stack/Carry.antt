-- ===== src/Stack/Carry.antt =====
-- What `_umtp_apdu_submit` leaves in the send queue of a running unit.
use umtp.Base.{
  take-length, ℕ, suc, ◌+◌, ◌<◌, ◌≤◌, ◌≡◌, refl, sym, ap, ◌∙◌, true, false, some, List, [], ◌∷◌,
  ◌++◌, arith, length, take, replicate, length-overwrite, take-overwrite, inl, inr, ◌==◌,
  Bool-cases,
}
use mathlib.Core.List.{append-nil, append_assoc}
use umtp.Addr.{UmtpAddr}
use umtp.Errno.{Errno}
use umtp.Bytes.{Apart-sym}
use umtp.RingBuf.{RingBuffer, count, element_at}
use umtp.RingBuf.Move.{pushed, count-pushed}
use umtp.RingBuf.Slots.{room-full}
use umtp.Mpu.{
  Side, queue_of, with_queue, MpuPacket, Mpu, recv, send, filled, mpu_put_send, max_mpu_data,
}
use umtp.Mpu.Queue.{MpuIsValid, enqueue-waiting, other_queue}
use umtp.Mpu.Keep.{stored, next_packet, HasRoom, stored-MpuIsValid, mpu_put_send-room}
use umtp.Mpu.Drain.{queued}
use umtp.Npdu.{Umtp, SendData, protocol_version, max_apdu}
use umtp.Apdu.{apdu_submit}
use umtp.Apdu.Submit.{apdu_submit-async}

-- A message: the destination and the bytes.
abbrev pub Message : Type 0
Message = UmtpAddr × List ℕ

-- The statuses of the submissions, one after the other, and the stack after them.
abbrev pub submit_all : Errno → Umtp → List Message → List ℕ × Umtp
submit_all n u [] = ([], u)
submit_all n u ((dst, pdu) ∷ ms) =
    let (ret, u') = apdu_submit n u dst pdu (length pdu) in
    let (rets, u'') = submit_all n u' ms in (ret ∷ rets, u'')

-- The messages have at most MAX_APDU bytes, and the data link takes them.
abbrev pub Sendable : SendData → List Message → Type 0
Sendable send_data [] = Unit {0}
Sendable send_data ((dst, pdu) ∷ ms) =
    ((0 < length pdu)
      × (length pdu ≤ max_apdu)
      × (send_data dst (protocol_version ∷ pdu) (suc (length pdu)) ≡ 0))
    × Sendable send_data ms

-- A running unit on a valid pair of queues, with arrays of MAX_MPU_DATA bytes.
pub record Running (mpu : Mpu) : Type 0 where
  pub valid : MpuIsValid mpu
  pub runs : mpu.running ≡ true
  pub wide : (p : ℕ) → max_mpu_data ≤ length (mpu.packets p).buffer

-- The packets that carry messages.
abbrev pub Carry : List MpuPacket → List Message → Type 0
Carry [] [] = Unit {0}
Carry [] (m ∷ ms) = ⊥
Carry (pkt ∷ pkts) [] = ⊥
Carry (pkt ∷ pkts) ((dst, pdu) ∷ ms) =
    ((pkt.addr ≡ dst) × (pkt.length ≡ length pdu) × (take (length pdu) pkt.buffer ≡ pdu))
    × Carry pkts ms

same_running :
    (side : Side) (mpu : Mpu) (q : RingBuffer) → (with_queue side q mpu).running ≡ mpu.running
same_running recv mpu q = refl
same_running send mpu q = refl

pub stored-Running :
    (side : Side) (mpu : Mpu) (dst : UmtpAddr) (p : ℕ) (msg : List ℕ) (len : ℕ)
    → Running mpu
    → HasRoom side mpu
    → Running (stored side mpu (filled dst p msg len (next_packet side mpu)))
stored-Running side mpu dst p msg len r room = record {
  valid = stored-MpuIsValid side mpu (filled dst p msg len (next_packet side mpu)) r.valid room;
  runs = same_running side mpu (pushed (queue_of side mpu)) ∙ r.runs;
  wide = λ a. elim (Bool-cases (a == element_at (queue_of side mpu) (queue_of side mpu).head)) [
    | inl e ↦ rw e (
        omega (
          arith,
          length-overwrite (next_packet side mpu).buffer msg len,
          r.wide (element_at (queue_of side mpu) (queue_of side mpu).head),
        ))
    | inr e ↦ rw e (r.wide a)
  ];
}

pub stored-queued :
    (n : Errno) (mpu : Mpu) (dst : UmtpAddr) (p : ℕ) (msg : List ℕ) (len : ℕ)
    → MpuIsValid mpu
    → HasRoom send mpu
    → let pkt = filled dst p msg len (next_packet send mpu) in
      (queued send (stored send mpu pkt) ≡ queued send mpu ++ pkt ∷ [])
      × (queued recv (stored send mpu pkt) ≡ queued recv mpu)
stored-queued n mpu dst p msg len v room = (
  (enqueue-waiting v.send v.send_size mpu.packets n dst p msg len
      (room-full mpu.send_queue room)).2,
  other_queue mpu.send_queue mpu.recv_queue mpu.packets
      (filled dst p msg len (next_packet send mpu)) mpu.send_queue.head v.send v.recv v.send_size
      v.recv_size (Apart-sym _ _ _ _ v.apart),
)

pub stored-queued_recv :
    (n : Errno) (mpu : Mpu) (src : UmtpAddr) (p : ℕ) (msg : List ℕ) (len : ℕ)
    → MpuIsValid mpu
    → HasRoom recv mpu
    → let pkt = filled src p msg len (next_packet recv mpu) in
      (queued recv (stored recv mpu pkt) ≡ queued recv mpu ++ pkt ∷ [])
      × (queued send (stored recv mpu pkt) ≡ queued send mpu)
stored-queued_recv n mpu src p msg len v room = (
  (enqueue-waiting v.recv v.recv_size mpu.packets n src p msg len
      (room-full mpu.recv_queue room)).2,
  other_queue mpu.recv_queue mpu.send_queue mpu.packets
      (filled src p msg len (next_packet recv mpu)) mpu.recv_queue.head v.recv v.send v.recv_size
      v.send_size v.apart,
)

-- The packet of a message that fits.
pub filled-Carry :
    (dst : UmtpAddr) (p : ℕ) (pdu : List ℕ) (old : MpuPacket)
    → length pdu ≤ max_mpu_data
    → max_mpu_data ≤ length old.buffer
    → let pkt = filled dst p pdu (length pdu) old in
      (pkt.length ≡ length pdu) × (take (length pdu) pkt.buffer ≡ pdu)
filled-Carry dst p pdu old small wide = (
  omega arith,
  take-overwrite old.buffer pdu (length pdu) (omega arith) (omega arith) ∙ take-length pdu,
)

pub submit-async :
    (n : Errno) (u : Umtp) (mpu : Mpu) (dst : UmtpAddr) (pdu : List ℕ)
    → u.sync_mode ≡ false
    → u.mpu ≡ some mpu
    → Running mpu
    → HasRoom send mpu
    → apdu_submit n u dst pdu (length pdu) ≡ (
      0,
      record u {
        mpu = some (stored send mpu (filled dst u.self pdu (length pdu) (next_packet send mpu)));
      },
    )
submit-async n u mpu dst pdu async unit r room =
    apdu_submit-async n u dst pdu (length pdu) async
    ∙ ap
        (λ m. (
          (mpu_put_send n m dst u.self pdu (length pdu)).0,
          record u { mpu = (mpu_put_send n m dst u.self pdu (length pdu)).1 },
        ))
        unit
    ∙ ap (λ put. (put.0, record u { mpu = put.1 }))
        (mpu_put_send-room n mpu dst u.self pdu (length pdu) r.valid r.runs
          (room-full mpu.send_queue room))

-- In the asynchronous mode the messages wait as packets.
pub submit_all-async :
    (n : Errno) (u : Umtp) (mpu : Mpu) (send_data : SendData) (ms : List Message)
    → u.sync_mode ≡ false
    → u.mpu ≡ some mpu
    → Running mpu
    → Sendable send_data ms
    → count (some mpu.send_queue) + length ms ≤ mpu.send_queue.element_count
    → (mpu' : Mpu) × (pkts : List MpuPacket) × (submit_all n u ms
        ≡ (replicate (length ms) 0, record u { mpu = some mpu' }))
      × Running mpu'
      × (queued recv mpu' ≡ queued recv mpu)
      × (queued send mpu' ≡ queued send mpu ++ pkts)
      × Carry pkts ms
submit_all-async n u mpu send_data [] async unit r ok room = (
  mpu,
  [],
  ap (λ m. ([], record u { mpu = m })) unit,
  r,
  refl,
  sym (append-nil (queued send mpu)),
  tt,
)
submit_all-async n u mpu send_data ((dst, pdu) ∷ ms) async unit r (ok, oks) room =
    let pkt : MpuPacket = filled dst u.self pdu (length pdu) (next_packet send mpu) in
    let has_room : HasRoom send mpu = omega (arith, room) in
    let kept = stored-queued n mpu dst u.self pdu (length pdu) r.valid has_room in
    let (mpu', pkts, submitted, r', received, sending, carry) =
      submit_all-async n (record u { mpu = some (stored send mpu pkt) }) (stored send mpu pkt)
        send_data ms async refl (stored-Running send mpu dst u.self pdu (length pdu) r has_room) oks
        (omega (arith, count-pushed r.valid.send has_room, room)) in
    (
      mpu',
      pkt ∷ pkts,
      ap (λ first. let rest = submit_all n first.1 ms in (first.0 ∷ rest.0, rest.1))
            (submit-async n u mpu dst pdu async unit r has_room)
          ∙ ap (λ rest. (0 ∷ rest.0, rest.1)) submitted,
      r',
      received ∙ kept.1,
      sending ∙ ap (λ q. q ++ pkts) kept.0 ∙ append_assoc (queued send mpu) (pkt ∷ []) pkts,
      (
        (
          refl,
          (filled-Carry dst u.self pdu (next_packet send mpu) (omega (arith, ok.1)) (r.wide _)).0,
          (filled-Carry dst u.self pdu (next_packet send mpu) (omega (arith, ok.1)) (r.wide _)).1,
        ),
        carry,
      ),
    )
