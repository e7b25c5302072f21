-- ===== src/Stack/Serve.antt =====
-- A stack in the asynchronous mode that answers requests: its task puts each message into the unit,
-- whose task handles it and sends the answer.
use umtp.Base.{
  ℕ, zero, suc, ◌+◌, ◌≤◌, ◌≡◌, refl, ap, ap₂, ◌∙◌, false, some, List, [], ◌∷◌, ◌++◌, arith, length,
  take, drop, ◌>>=◌,
}
use umtp.Addr.{UmtpAddr}
use umtp.Errno.{Errno}
use umtp.RingBuf.Slots.{slots-popped, slots-count}
use umtp.Mpu.{MpuPacket, Mpu, Side, recv, send, filled, max_mpu_data, mpu_round, drop_packet}
use umtp.Mpu.Keep.{stored, next_packet, HasRoom, drop_packet-MpuIsValid, drop_packet-same}
use umtp.Mpu.Drain.{queued, drop_packet-popped, round-both}
use umtp.Npdu.{Umtp, SendData, max_apdu}
use umtp.Npdu.Handler.{npdu_handler, after_sending}
use umtp.Service.{Services, service_handler}
use umtp.Apdu.Wire.{frame, request_pdu, npdu_handler-request_array}
use umtp.Apdu.Handle.{answer_pdu, answer-length, handle_request-answer}
use umtp.Stack.{stack_handlers, handle_msg, send_msg, hand_back, with_unit}
use umtp.Mpu.Queue.{MpuIsValid}
use umtp.Stack.Modes.{send_msg-Carry}
use umtp.Stack.Carry.{filled-Carry, Running, stored-Running, stored-queued, submit-async}

-- A confirmed request, and the status and the data that its service answers.
pub record Request : Type 0 where
  pub src : UmtpAddr
  pub service : ℕ
  pub session_id : ℕ
  pub bytes : List ℕ
  pub ret : ℕ
  pub response : List ℕ

abbrev pub request_frame : Request → List ℕ
request_frame r = frame (request_pdu r.service r.session_id r.bytes)

abbrev pub answer_of : Request → List ℕ
answer_of r = answer_pdu r.service r.session_id (r.ret, r.response)

-- The service gives that answer, whatever follows the request in its array, the request fits a packet,
-- the answer fits MAX_APDU, and the data link takes it.
pub record IsServed (n : Errno) (fuel : ℕ) (sv : Services) (send_data : SendData) (r : Request)
    : Type 0 where
  pub handler :
      (rest : List ℕ)
      → service_handler n fuel sv r.src r.service (r.bytes ++ rest) (length r.bytes)
        ≡ some (r.ret, r.response)
  pub fits : length (request_frame r) ≤ max_mpu_data
  pub answer_fits : length r.response + 4 ≤ max_apdu
  pub taken : send_data r.src (frame (answer_of r)) (length (frame (answer_of r))) ≡ 0

take-split : (k : ℕ) (xs ys : List ℕ) → take k xs ≡ ys → xs ≡ ys ++ drop k xs
take-split zero xs ys e = ap (λ l. l ++ xs) e
take-split (suc k) [] ys e = ap (λ l. l ++ []) e
take-split (suc k) (x ∷ xs) ys e =
    ap (◌∷◌ x) (take-split k xs (take k xs) refl) ∙ ap (λ l. l ++ drop k xs) e

answer_length : (r : Request) → length r.response + 4 ≤ max_apdu → length (answer_of r) ≤ max_apdu
answer_length r fits = ground arith

-- The packet with the answer.
abbrev pub answer_packet : Umtp → Mpu → Request → MpuPacket
answer_packet u mpu r =
    filled r.src u.self (answer_of r) (length (answer_of r)) (next_packet send mpu)

module _ (n : Errno) (fuel : ℕ) (u : Umtp) (send_data : SendData) (r : Request)
    (async : u.sync_mode ≡ false) (s : IsServed n fuel u.services send_data r) where
  npdu_handler-served :
      (mpu : Mpu) (array : List ℕ)
      → Running mpu
      → HasRoom send mpu
      → take (length (request_frame r)) array ≡ request_frame r
      → npdu_handler n fuel (with_unit mpu u) r.src array (length (request_frame r))
        ≡ some (0, with_unit (stored send mpu (answer_packet u mpu r)) u)
  npdu_handler-served mpu array run room carried =
      let rest : List ℕ = drop (length (request_frame r)) array in
      ap₂ (npdu_handler n fuel (with_unit mpu u) r.src)
        (take-split (length (request_frame r)) array (request_frame r) carried) same
      ∙ npdu_handler-request_array n fuel (with_unit mpu u) r.src r.service r.session_id
          (r.bytes ++ rest) (length r.bytes) (omega (arith, s.fits))
      ∙ handle_request-answer n fuel (with_unit mpu u) r.src r.service r.session_id
          (r.bytes ++ rest) (length r.bytes) (r.ret, r.response) (s.handler rest)
          (omega (arith, s.answer_fits))
      ∙ ap some (submit-async n (with_unit mpu u) mpu r.src (answer_of r) async refl run room)
    where
      same : length (request_frame r) ≡ 5 + length r.bytes
      same = omega arith

  handle_msg-served :
      (mpu : Mpu) (pkt : MpuPacket)
      → Running mpu
      → HasRoom send mpu
      → pkt.addr ≡ r.src
      → pkt.length ≡ length (request_frame r)
      → take (length (request_frame r)) pkt.buffer ≡ request_frame r
      → handle_msg n fuel pkt (mpu, u) ≡ some (0, stored send mpu (answer_packet u mpu r), u)
  unfolding handle_msg
  handle_msg-served mpu pkt run room from len carried =
      ap₂
        (λ a l.
          npdu_handler n fuel (with_unit mpu u) a pkt.buffer l >>= λ r. some (hand_back mpu u r))
        from len
      ∙ ap (λ r. r >>= λ r. some (hand_back mpu u r))
          (npdu_handler-served mpu pkt.buffer run room carried)

drop-Running : (side : Side) (mpu : Mpu) → Running mpu → Running (drop_packet side mpu)
drop-Running side mpu run = record {
  valid = drop_packet-MpuIsValid side mpu run.valid;
  runs = (drop_packet-same side mpu).0 ∙ run.runs;
  wide = λ p. rw ((drop_packet-same side mpu).1) (run.wide p);
}

-- The receive queue has as many elements as before.
abbrev pub SameSize : Mpu → Mpu → Type 0
SameSize mpu mpu' = mpu'.recv_queue.element_count ≡ mpu.recv_queue.element_count

-- The other queue is as before.
drop_recv :
    (mpu : Mpu) (pkt : MpuPacket) (rest : List MpuPacket)
    → MpuIsValid mpu
    → queued recv mpu ≡ pkt ∷ rest
    → (queued recv (drop_packet recv mpu) ≡ rest)
      × (queued send (drop_packet recv mpu) ≡ queued send mpu)
      × SameSize mpu (drop_packet recv mpu)
drop_recv mpu pkt rest v e =
    rw (drop_packet-popped recv mpu pkt rest e)
      ((slots-popped mpu.recv_queue mpu.packets pkt rest v.recv e).1, refl, refl)

drop_send :
    (mpu : Mpu) (pkt : MpuPacket) (rest : List MpuPacket)
    → MpuIsValid mpu
    → queued send mpu ≡ pkt ∷ rest
    → (queued send (drop_packet send mpu) ≡ rest)
      × (queued recv (drop_packet send mpu) ≡ queued recv mpu)
      × SameSize mpu (drop_packet send mpu)
drop_send mpu pkt rest v e =
    rw (drop_packet-popped send mpu pkt rest e)
      ((slots-popped mpu.send_queue mpu.packets pkt rest v.send e).1, refl, refl)

-- One round of the loop of `mpu_task` answers the oldest request.
pub round-served :
    (n : Errno) (fuel : ℕ) (u : Umtp) (send_data : SendData) (r : Request) (mpu : Mpu)
    (pkt : MpuPacket) (rest : List MpuPacket)
    → u.sync_mode ≡ false
    → u.dl ≡ some send_data
    → IsServed n fuel u.services send_data r
    → Running mpu
    → queued recv mpu ≡ pkt ∷ rest
    → queued send mpu ≡ []
    → pkt.addr ≡ r.src
    → pkt.length ≡ length (request_frame r)
    → take (length (request_frame r)) pkt.buffer ≡ request_frame r
    → (mpu' : Mpu) × (mpu_round (stack_handlers n fuel) (mpu, u)
        ≡ some (mpu', after_sending u r.src (answer_of r)))
      × Running mpu'
      × (queued recv mpu' ≡ rest)
      × (queued send mpu' ≡ [])
      × SameSize mpu mpu'
round-served n fuel u send_data r mpu pkt rest async link s run waits none_out from len carried =
    let room : HasRoom send mpu =
      omega (arith, slots-count mpu.send_queue mpu.packets none_out, run.valid.send.positive) in
    let answer : MpuPacket = answer_packet u mpu r in
    let full : Mpu = stored send mpu answer in
    let full_run : Running full =
      stored-Running send mpu r.src u.self (answer_of r) (length (answer_of r)) run room in
    let (out, kept) =
      stored-queued n mpu r.src u.self (answer_of r) (length (answer_of r)) run.valid room in
    let (rest_in, kept_out, size) = drop_recv full pkt rest full_run.valid (kept ∙ waits) in
    let half : Mpu = drop_packet recv full in
    let half_run : Running half = drop-Running recv full full_run in
    let one_out : queued send half ≡ answer ∷ [] =
      kept_out ∙ out ∙ ap (λ q. q ++ answer ∷ []) none_out in
    let (none_left, kept_in, size') = drop_send half answer [] half_run.valid one_out in
    let bounds =
      answer-length r.service r.session_id (r.ret, r.response) (omega (arith, s.answer_fits)) in
    let small = answer_length r s.answer_fits in
    let carry =
      filled-Carry r.src u.self (answer_of r) (next_packet send mpu) (omega (arith, small))
        (run.wide _) in
    (
      drop_packet send half,
      round-both (handle_msg n fuel) (send_msg n) mpu full half u u
          (after_sending u r.src (answer_of r)) pkt answer rest [] waits
          (handle_msg-served n fuel u send_data r async s mpu pkt run room from len carried) one_out
          (send_msg-Carry n send_data answer r.src (answer_of r) half u refl carry.0 carry.1 link
              bounds.0 small s.taken
            ∙ ap (λ pdu. some (0, half, after_sending u r.src pdu))
                (ap (λ l. take l answer.buffer) carry.0 ∙ carry.1)),
      drop-Running send half half_run,
      kept_in ∙ rest_in,
      none_left,
      size' ∙ size,
    )
