-- ===== src/Stack/Requests.antt =====
-- Requests that arrive one after the other, and their answers, in the two modes of a stack.
mod Tests
use umtp.Base.{
  ℕ, suc, ◌+◌, ◌≤◌, ◌≡◌, refl, sym, ap, ◌∙◌, true, false, not, Option, some, List, [], ◌∷◌, ◌++◌,
  arith, length, u16_mod, ◌>>=◌, ◌%◌, if◌then◌else◌,
}
use mathlib.Core.List.{append-nil, append_assoc}
use umtp.Errno.{Errno}
use umtp.RingBuf.{count}
use umtp.RingBuf.Move.{count-pushed}
use umtp.RingBuf.Slots.{slots-count}
use umtp.Mpu.{MpuPacket, Mpu, recv, send, filled, mpu_drain, mpu_put_recv}
use umtp.Mpu.Keep.{stored, next_packet, HasRoom}
use umtp.Mpu.Drain.{queued, drain-done, drain-more_recv}
use umtp.Npdu.{Umtp, SendData}
use umtp.Npdu.Handler.{npdu_handler, after_sending}
use umtp.Service.{Services, service_handler}
use umtp.Apdu.{put_send}
use umtp.Apdu.Handle.{npdu_handler-answer}
use umtp.Stack.{stack_handlers, receive, drain_unit, drain, with_unit}
use umtp.Stack.Async.{receive-stored}
use umtp.Stack.Carry.{Message, Running, Carry, stored-Running, stored-queued_recv, filled-Carry}
use umtp.Stack.Modes.{sent_all, sync_of, after_all, after_all-cons, after_all-nil}
use umtp.Stack.Serve.{Request, request_frame, answer_of, IsServed, SameSize, round-served}

abbrev pub AllServed : Errno → ℕ → Services → SendData → List Request → Type 0
AllServed n fuel sv send_data [] = Unit {0}
AllServed n fuel sv send_data (r ∷ rs) =
    IsServed n fuel sv send_data r × AllServed n fuel sv send_data rs

-- What the task of the stack does with the messages.
abbrev pub receive_all : Errno → ℕ → Umtp → List Request → Option Umtp
receive_all n fuel u [] = some u
receive_all n fuel u (r ∷ rs) =
    receive n fuel u r.src (request_frame r) (length (request_frame r)) >>= λ u'.
    receive_all n fuel u' rs

abbrev pub frames : List Request → List Message
frames [] = []
frames (r ∷ rs) = (r.src, request_frame r) ∷ frames rs

abbrev pub answers : List Request → List Message
answers [] = []
answers (r ∷ rs) = (r.src, answer_of r) ∷ answers rs

-- The requests wait in the receive queue.
pub receive_all-async :
    (n : Errno) (fuel : ℕ) (u : Umtp) (mpu : Mpu) (send_data : SendData) (rs : List Request)
    → u.sync_mode ≡ false
    → u.mpu ≡ some mpu
    → Running mpu
    → AllServed n fuel u.services send_data rs
    → count (some mpu.recv_queue) + length rs ≤ mpu.recv_queue.element_count
    → (mpu' : Mpu) × (pkts : List MpuPacket) × (receive_all n fuel u rs
        ≡ some (record u { mpu = some mpu' }))
      × Running mpu'
      × (queued recv mpu' ≡ queued recv mpu ++ pkts)
      × (queued send mpu' ≡ queued send mpu)
      × Carry pkts (frames rs)
      × SameSize mpu mpu'
receive_all-async n fuel u mpu send_data [] async unit run ok room = (
  mpu,
  [],
  ap (λ m. some (record u { mpu = m })) unit,
  run,
  sym (append-nil (queued recv mpu)),
  refl,
  tt,
  refl,
)
receive_all-async n fuel u mpu send_data (r ∷ rs) async unit run (ok, oks) room =
    let pkt : MpuPacket =
      filled r.src u.self (request_frame r) (length (request_frame r)) (next_packet recv mpu) in
    let has_room : HasRoom recv mpu = omega (arith, room) in
    let kept =
      stored-queued_recv n mpu r.src u.self (request_frame r) (length (request_frame r)) run.valid
        has_room in
    let (mpu', pkts, received, run', waits, sends, carry, size) =
      receive_all-async n fuel (record u { mpu = some (stored recv mpu pkt) }) (stored recv mpu pkt)
        send_data rs async refl
        (stored-Running recv mpu r.src u.self (request_frame r) (length (request_frame r)) run
          has_room)
        oks (omega (arith, count-pushed run.valid.recv has_room, room)) in
    let fits =
      filled-Carry r.src u.self (request_frame r) (next_packet recv mpu) ok.fits (run.wide _) in
    (
      mpu',
      pkt ∷ pkts,
      ap (λ first. first >>= λ u'. receive_all n fuel u' rs)
            (receive-stored n fuel u mpu r.src (request_frame r) (length (request_frame r)) async
              unit run.valid run.runs has_room)
          ∙ received,
      run',
      waits ∙ ap (λ q. q ++ pkts) kept.0 ∙ append_assoc (queued recv mpu) (pkt ∷ []) pkts,
      sends ∙ kept.1,
      ((refl, fits.0, fits.1), carry),
      size,
    )

pub drain-served :
    (n : Errno) (fuel : ℕ) (u : Umtp) (send_data : SendData) (rs : List Request) (mpu : Mpu)
    (pkts : List MpuPacket)
    → u.sync_mode ≡ false
    → u.dl ≡ some send_data
    → AllServed n fuel u.services send_data rs
    → Running mpu
    → queued recv mpu ≡ pkts
    → queued send mpu ≡ []
    → Carry pkts (frames rs)
    → (mpu' : Mpu) × (mpu_drain (suc (length rs)) (stack_handlers n fuel) (mpu, u)
        ≡ some (mpu', after_all u (answers rs)))
      × Running mpu'
      × (queued recv mpu' ≡ [])
      × (queued send mpu' ≡ [])
      × SameSize mpu mpu'
drain-served n fuel u send_data [] mpu [] async link ok run waits none_out c = (
  mpu,
  drain-done (stack_handlers n fuel) 0 mpu u waits none_out
      ∙ ap (λ u. some (mpu, u)) (sym (after_all-nil u)),
  run,
  waits,
  none_out,
  refl,
)
drain-served n fuel u send_data [] mpu (pkt ∷ pkts) async link ok run waits none_out c = absurd c
drain-served n fuel u send_data (r ∷ rs) mpu [] async link ok run waits none_out c = absurd c
drain-served n fuel u send_data (r ∷ rs) mpu (pkt ∷ pkts) async link (ok, oks) run waits none_out
      ((from, len, bytes), c) =
    let (mpu1, round, run1, waits1, none_out1, size1) =
      round-served n fuel u send_data r mpu pkt pkts async link ok run waits none_out from len
        bytes in
    let (mpu', ended, run', none_in', none_out', size) =
      drain-served n fuel (after_sending u r.src (answer_of r)) send_data rs mpu1 pkts async link
        oks run1 waits1 none_out1 c in
    (
      mpu',
      drain-more_recv (stack_handlers n fuel) (suc (length rs)) mpu u pkt pkts waits
          ∙ ap (λ st. st >>= mpu_drain (suc (length rs)) (stack_handlers n fuel)) round
          ∙ ended
          ∙ ap (λ u. some (mpu', u)) (after_all-cons u r.src (answer_of r) (answers rs)),
      run',
      none_in',
      none_out',
      size ∙ size1,
    )

-- In the synchronous mode a request is answered before the next one is received.
receive-answer :
    (n : Errno) (fuel : ℕ) (u : Umtp) (send_data : SendData) (r : Request)
    → u.sync_mode ≡ true
    → u.dl ≡ some send_data
    → IsServed n fuel u.services send_data r
    → receive n fuel u r.src (request_frame r) (length (request_frame r))
      ≡ some (after_sending u r.src (answer_of r))
unfolding receive
receive-answer n fuel u send_data r sync link s =
    ap
      (λ b.
        if not b
        then some
            (put_send u
              (mpu_put_recv n u.mpu r.src u.self (request_frame r) (length (request_frame r)))).1
        else (npdu_handler n fuel u r.src (request_frame r) (length (request_frame r) % u16_mod)
            >>= λ r. some r.1))
      sync
    ∙ ap (λ len. npdu_handler n fuel u r.src (request_frame r) len >>= λ r. some r.1) whole
    ∙ ap (λ st. st >>= λ st. some st.1)
        (npdu_handler-answer n fuel u send_data r.src r.service r.session_id r.bytes
          (r.ret, r.response) (record { sync = sync; link = link }) (omega (arith, s.fits)) served
          (omega (arith, s.answer_fits)))
  where
    whole : length (request_frame r) % u16_mod ≡ length (request_frame r)
    whole = omega (arith, s.fits)

    served :
        service_handler n fuel u.services r.src r.service r.bytes (length r.bytes)
        ≡ some (r.ret, r.response)
    served =
        ap (λ bs. service_handler n fuel u.services r.src r.service bs (length r.bytes))
          (sym (append-nil r.bytes))
        ∙ s.handler []

receive_all-sync :
    (n : Errno) (fuel : ℕ) (u : Umtp) (send_data : SendData) (rs : List Request)
    → u.sync_mode ≡ true
    → u.dl ≡ some send_data
    → AllServed n fuel u.services send_data rs
    → receive_all n fuel u rs ≡ some (after_all u (answers rs))
receive_all-sync n fuel u send_data [] sync link ok = ap some (sym (after_all-nil u))
receive_all-sync n fuel u send_data (r ∷ rs) sync link (ok, oks) =
    ap (λ first. first >>= λ u'. receive_all n fuel u' rs)
      (receive-answer n fuel u send_data r sync link ok)
    ∙ receive_all-sync n fuel (after_sending u r.src (answer_of r)) send_data rs sync link oks
    ∙ ap some (after_all-cons u r.src (answer_of r) (answers rs))

-- A stack in the asynchronous mode, with a data link and a running unit whose queues are valid and
-- empty and whose arrays have MAX_MPU_DATA bytes, receives confirmed requests, at most as many as the
-- receive queue has elements. Each of them fits a packet, its answer fits MAX_APDU, its service gives the
-- same answer whatever follows the request in its array, and the data link takes that answer with
-- status 0. All are accepted; emptying the queues ends after one round for each request and one more;
-- then each request has been answered by one frame to its source, in the order of the requests, the
-- unit runs with empty queues, and the rest of the stack is as before. In the synchronous mode the
-- same stack sends the same frames in the same order.
pub drain-receive_all :
    (n : Errno) (fuel : ℕ) (u : Umtp) (mpu : Mpu) (send_data : SendData) (rs : List Request)
    → u.sync_mode ≡ false
    → u.dl ≡ some send_data
    → u.mpu ≡ some mpu
    → Running mpu
    → queued recv mpu ≡ []
    → queued send mpu ≡ []
    → length rs ≤ mpu.recv_queue.element_count
    → AllServed n fuel u.services send_data rs
    → (u' : Umtp) × (mpu' : Mpu) × (receive_all n fuel u rs ≡ some u')
      × (drain n (suc (length rs)) fuel u'
          ≡ some (record u { effects = u.effects ++ sent_all (answers rs); mpu = some mpu' }))
      × Running mpu'
      × (queued recv mpu' ≡ [])
      × (queued send mpu' ≡ [])
      × (receive_all n fuel (sync_of u) rs
          ≡ some (record (sync_of u) { effects = u.effects ++ sent_all (answers rs) }))
unfolding drain drain_unit
drain-receive_all n fuel u mpu send_data rs async link unit run none_in none_out room ok =
    let (full, pkts, received, full_run, waits, sends, carry, size) =
      receive_all-async n fuel u mpu send_data rs async unit run ok
        (omega (arith, slots-count mpu.recv_queue mpu.packets none_in)) in
    let (mpu', ended, run', none_in', none_out', size') =
      drain-served n fuel (record u { mpu = some full }) send_data rs full pkts async link ok
        full_run (waits ∙ ap (λ q. q ++ pkts) none_in) (sends ∙ none_out) carry in
    (
      record u { mpu = some full },
      mpu',
      received,
      ap (λ r. r >>= λ r. some (with_unit r.0 r.1)) ended,
      run',
      none_in',
      none_out',
      receive_all-sync n fuel (sync_of u) send_data rs refl link ok,
    )
