-- ===== src/Stack/Modes.antt =====
-- The two modes of a stack, which sends at once or through the message process unit.
use umtp.Base.{
  ℕ, suc, ◌<◌, ◌≤◌, ◌≡◌, refl, sym, ap, ap₂, ◌∙◌, true, false, Option, some, List, [], ◌∷◌, ◌++◌,
  arith, length, take, replicate, ◌>>=◌,
}
use mathlib.Core.List.{append-nil, append_assoc}
use umtp.Addr.{UmtpAddr}
use umtp.Errno.{Errno}
use umtp.RingBuf.Slots.{slots-count}
use umtp.Mpu.{MpuPacket, Mpu, recv, send, mpu_drain}
use umtp.Mpu.Drain.{queued, Delivers, fold_packets, drain-send}
use umtp.Npdu.{Umtp, Effect, sent, SendData, npdu_send, protocol_version, max_apdu}
use umtp.Npdu.Handler.{after_sending, npdu_send-frame, npdu_send-take}
use umtp.Apdu.Submit.{apdu_submit-sync}
use umtp.Stack.{stack_handlers, send_msg, handle_msg, hand_back, drain_unit, drain, with_unit}
use umtp.Stack.Carry.{Message, submit_all, Sendable, Running, Carry, submit_all-async}

abbrev pub sync_of : Umtp → Umtp
sync_of u = record u { sync_mode = true }

-- The frames of messages, as they leave the stack.
abbrev pub sent_all : List Message → List Effect
sent_all [] = []
sent_all ((dst, pdu) ∷ ms) = sent dst (protocol_version ∷ pdu) (suc (length pdu)) ∷ sent_all ms

abbrev pub after_all : Umtp → List Message → Umtp
after_all u ms = record u { effects = u.effects ++ sent_all ms }

pub after_all-cons :
    (u : Umtp) (dst : UmtpAddr) (pdu : List ℕ) (ms : List Message)
    → after_all (after_sending u dst pdu) ms ≡ after_all u ((dst, pdu) ∷ ms)
after_all-cons u dst pdu ms =
    ap (λ e. record u { effects = e })
      (append_assoc u.effects (sent dst (protocol_version ∷ pdu) (suc (length pdu)) ∷ [])
        (sent_all ms))

pub after_all-nil : (u : Umtp) → after_all u [] ≡ u
after_all-nil u = ap (λ e. record u { effects = e }) (append-nil u.effects)

submit_all-sync :
    (n : Errno) (u : Umtp) (send_data : SendData) (ms : List Message)
    → u.sync_mode ≡ true
    → u.dl ≡ some send_data
    → Sendable send_data ms
    → submit_all n u ms ≡ (replicate (length ms) 0, after_all u ms)
submit_all-sync n u send_data [] sync link ok = ap (λ u. ([], u)) (sym (after_all-nil u))
submit_all-sync n u send_data ((dst, pdu) ∷ ms) sync link ((pos, small, taken), oks) =
    ap (λ first. let rest = submit_all n first.1 ms in (first.0 ∷ rest.0, rest.1))
      (apdu_submit-sync n u dst pdu (length pdu) sync
        ∙ npdu_send-frame n u send_data dst pdu link pos (omega arith))
    ∙ ap (λ rest. (send_data dst (protocol_version ∷ pdu) (suc (length pdu)) ∷ rest.0, rest.1))
        (submit_all-sync n (after_sending u dst pdu) send_data ms sync link oks)
    ∙ ap₂ (λ ret u. (ret ∷ replicate (length ms) 0, u)) taken (after_all-cons u dst pdu ms)

-- What the send handler makes of the stack.
abbrev sending_of : MpuPacket → Umtp → Umtp
sending_of pkt u = after_sending u pkt.addr (take pkt.length pkt.buffer)

pub send_msg-Carry :
    (n : Errno) (send_data : SendData) (pkt : MpuPacket) (dst : UmtpAddr) (pdu : List ℕ) (mpu : Mpu)
    (u : Umtp)
    → pkt.addr ≡ dst
    → pkt.length ≡ length pdu
    → take (length pdu) pkt.buffer ≡ pdu
    → u.dl ≡ some send_data
    → 0 < length pdu
    → length pdu ≤ max_apdu
    → send_data dst (protocol_version ∷ pdu) (suc (length pdu)) ≡ 0
    → send_msg n pkt (mpu, u) ≡ some (0, mpu, sending_of pkt u)
unfolding send_msg
send_msg-Carry n send_data pkt dst pdu mpu u to len bytes link pos small taken =
    ap (λ r. some (hand_back mpu u r))
      (ap₂ (λ a l. npdu_send n (with_unit mpu u) a pkt.buffer l) to len
        ∙ npdu_send-take n (with_unit mpu u) dst pkt.buffer pdu bytes
        ∙ npdu_send-frame n (with_unit mpu u) send_data dst pdu link pos (omega arith))
    ∙ ap (λ ret. some (ret, mpu, after_sending u dst pdu)) taken
    ∙ ap₂ (λ a bs. some (0, mpu, after_sending u a bs)) (sym to)
        (sym (ap (λ l. take l pkt.buffer) len ∙ bytes))

Carry-Delivers :
    (n : Errno) (send_data : SendData) (pkts : List MpuPacket) (ms : List Message)
    → Carry pkts ms
    → Sendable send_data ms
    → Delivers (λ u. u.dl ≡ some send_data) (send_msg n) sending_of pkts
Carry-Delivers n send_data [] ms c ok = tt
Carry-Delivers n send_data (pkt ∷ pkts) [] c ok = absurd c
Carry-Delivers n send_data (pkt ∷ pkts) ((dst, pdu) ∷ ms) ((to, len, bytes), c)
      ((pos, small, taken), oks) =
    (
      λ mpu u link.
          (send_msg-Carry n send_data pkt dst pdu mpu u to len bytes link pos small taken, link),
      Carry-Delivers n send_data pkts ms c oks,
    )

fold_packets-Carry :
    (pkts : List MpuPacket) (ms : List Message) (u : Umtp)
    → Carry pkts ms
    → fold_packets sending_of pkts u ≡ after_all u ms
fold_packets-Carry [] [] u c = sym (after_all-nil u)
fold_packets-Carry [] (m ∷ ms) u c = absurd c
fold_packets-Carry (pkt ∷ pkts) [] u c = absurd c
fold_packets-Carry (pkt ∷ pkts) ((dst, pdu) ∷ ms) u ((to, len, bytes), c) =
    ap₂ (λ a bs. fold_packets sending_of pkts (after_sending u a bs)) to
      (ap (λ l. take l pkt.buffer) len ∙ bytes)
    ∙ fold_packets-Carry pkts ms (after_sending u dst pdu) c
    ∙ after_all-cons u dst pdu ms

pub length-Carry :
    (pkts : List MpuPacket) (ms : List Message) → Carry pkts ms → length pkts ≡ length ms
length-Carry [] [] c = refl
length-Carry [] (m ∷ ms) c = absurd c
length-Carry (pkt ∷ pkts) [] c = absurd c
length-Carry (pkt ∷ pkts) (m ∷ ms) (_, c) = ap suc (length-Carry pkts ms c)

-- A stack in the asynchronous mode, with a running unit whose queues are valid and empty and whose
-- arrays have MAX_MPU_DATA bytes; messages of 1 to MAX_APDU bytes, at most as many as the send
-- queue has elements, whose frames the data link takes with status 0. Submitting them one after the
-- other and then emptying the queues, which ends after one round for each message and one more, gives
-- the same statuses and the same stack, its effects in the same order, as submitting them to the
-- stack in the synchronous mode, but for the mode and the unit, whose queues are empty again.
pub drain-submit_all :
    (n : Errno) (fuel : ℕ) (u : Umtp) (mpu : Mpu) (send_data : SendData) (ms : List Message)
    → u.sync_mode ≡ false
    → u.dl ≡ some send_data
    → u.mpu ≡ some mpu
    → Running mpu
    → queued recv mpu ≡ []
    → queued send mpu ≡ []
    → length ms ≤ mpu.send_queue.element_count
    → Sendable send_data ms
    → let later = submit_all n u ms in
      let at_once = submit_all n (sync_of u) ms in
      (mpu' : Mpu) × (later.0 ≡ at_once.0)
      × (drain n (suc (length ms)) fuel later.1
          ≡ some (record at_once.1 { sync_mode = false; mpu = some mpu' }))
      × (queued recv mpu' ≡ [])
      × (queued send mpu' ≡ [])
unfolding drain drain_unit
drain-submit_all n fuel u mpu send_data ms async link unit r none_in none_out room ok =
    let (mpu', pkts, submitted, r', received, sending, carry) =
      submit_all-async n u mpu send_data ms async unit r ok
        (omega (arith, slots-count mpu.send_queue mpu.packets none_out)) in
    let after : Mpu → Umtp → Option Umtp = λ m s. some (with_unit m s) in
    let at_once = submit_all-sync n (sync_of u) send_data ms refl link ok in
    let (q, ended, valid, empty_after) =
      drain-send (λ u. u.dl ≡ some send_data) (some (handle_msg n fuel)) (send_msg n) sending_of
        mpu' (record u { mpu = some mpu' }) pkts r'.valid.send (received ∙ none_in)
        (sending ∙ ap (λ q. q ++ pkts) none_out) link
        (Carry-Delivers n send_data pkts ms carry ok) in
    (
      record mpu' { send_queue = q },
      ap (λ r. r.0) submitted ∙ sym (ap (λ r. r.0) at_once),
      ap (λ r. drain n (suc (length ms)) fuel r.1) submitted
          ∙ ap
              (λ k.
                mpu_drain (suc k) (stack_handlers n fuel) (mpu', record u { mpu = some mpu' })
                >>= λ r. after r.0 r.1)
              (sym (length-Carry pkts ms carry))
          ∙ ap (λ r. r >>= λ r. after r.0 r.1) ended
          ∙ ap (after (record mpu' { send_queue = q }))
              (fold_packets-Carry pkts ms (record u { mpu = some mpu' }) carry)
          ∙ ap
              (λ b. some (record (after_all u ms) {
                sync_mode = b;
                mpu = some (record mpu' { send_queue = q });
              }))
              async
          ∙ ap
              (λ r.
                some
                  (record r.1 { sync_mode = false; mpu = some (record mpu' { send_queue = q }) }))
              (sym at_once),
      received ∙ none_in,
      empty_after,
    )
