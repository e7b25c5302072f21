-- ===== src/Stack/Async.antt =====
-- The asynchronous mode: what becomes of the packets in the queues of the message process unit.
use umtp.Base.{
  u16_mod, ◌%◌, ℕ, zero, suc, ◌<◌, ◌≡◌, ◌≢◌, refl, sym, ap, ◌∙◌, true, false, not, overwrite,
  if◌then◌else◌, some, none, List, [], ◌∷◌, ◌++◌, arith, length, ◌>>=◌,
}
use umtp.Addr.{UmtpAddr}
use umtp.Errno.{Errno, Positive, negative, negative-ne-zero}
use umtp.RingBuf.{full}
use umtp.RingBuf.Slots.{room-full, slots-count}
use umtp.Mpu.{MpuPacket, Mpu, filled, mpu_put_recv, recv}
use umtp.Mpu.Queue.{MpuIsValid, enqueue-waiting}
use umtp.Mpu.Keep.{stored, next_packet, HasRoom, mpu_put_recv-room}
use umtp.Mpu.Drain.{Quiet, queued, drain-refused}
use umtp.Npdu.{Umtp, byte_at, protocol_version, npdu_send}
use umtp.Npdu.Handler.{npdu_handler, npdu_send-effects, npdu_handler-version}
use umtp.Apdu.{put_send}
use umtp.Apdu.Submit.{put_send-eq}
use umtp.Stack.{receive, send_msg, handle_msg, hand_back, drain_unit, drain, with_unit}

send_msg-Quiet : (n : Errno) → Quiet (send_msg n)
unfolding send_msg
send_msg-Quiet n pkt mpu u =
    let (e, same) = npdu_send-effects n (with_unit mpu u) pkt.addr pkt.buffer pkt.length in
    let ret = (npdu_send n (with_unit mpu u) pkt.addr pkt.buffer pkt.length).0 in
    (ret, record u { effects = e }, ap (λ u'. some (hand_back mpu u (ret, u'))) same)

handle_msg-version :
    (n : Errno) (fuel : ℕ) (pkt : MpuPacket) (mpu : Mpu) (u : Umtp)
    → byte_at pkt.buffer 0 ≢ protocol_version
    → handle_msg n fuel pkt (mpu, u) ≡ some (negative n.eproto, mpu, u)
unfolding handle_msg
handle_msg-version n fuel pkt mpu u ne =
    ap (λ r. r >>= λ r. some (hand_back mpu u r))
      (npdu_handler-version n fuel (with_unit mpu u) pkt.addr pkt.buffer pkt.length ne)

pub drain-version :
    (n : Errno) (rounds fuel : ℕ) (u : Umtp) (mpu : Mpu) (pkt : MpuPacket) (rest : List MpuPacket)
    → Positive n
    → u.mpu ≡ some mpu
    → queued recv mpu ≡ pkt ∷ rest
    → byte_at pkt.buffer 0 ≢ protocol_version
    → drain n rounds fuel u ≡ none
unfolding drain drain_unit
drain-version n rounds fuel u mpu pkt rest p unit e ne =
    ap (drain_unit n rounds fuel u) unit
    ∙ ap (λ r. r >>= λ r. some (with_unit r.0 r.1))
        (drain-refused (handle_msg n fuel) (send_msg n) rounds mpu u pkt rest (send_msg-Quiet n)
          (λ mpu u. (
            negative n.eproto,
            negative-ne-zero n.eproto p.eproto_pos,
            handle_msg-version n fuel pkt mpu u ne,
          ))
          e)

-- In the asynchronous mode.
pub receive-stored :
    (n : Errno) (fuel : ℕ) (u : Umtp) (mpu : Mpu) (src : UmtpAddr) (buf : List ℕ) (len : ℕ)
    → u.sync_mode ≡ false
    → u.mpu ≡ some mpu
    → MpuIsValid mpu
    → mpu.running ≡ true
    → HasRoom recv mpu
    → receive n fuel u src buf len
      ≡ some (record u {
        mpu = some (stored recv mpu (filled src u.self buf len (next_packet recv mpu)));
      })
unfolding receive
receive-stored n fuel u mpu src buf len async unit v run room =
    ap
      (λ b.
        if not b
        then some (put_send u (mpu_put_recv n u.mpu src u.self buf len)).1
        else (npdu_handler n fuel u src buf (len % u16_mod) >>= λ r. some r.1))
      async
    ∙ ap (λ m. some (put_send u (mpu_put_recv n m src u.self buf len)).1) unit
    ∙ ap (λ r. some (put_send u r).1)
        (mpu_put_recv-room n mpu src u.self buf len v run (room-full mpu.recv_queue room))
    ∙ ap (λ r. some r.1) (put_send-eq u _)

first_byte :
    (old buf : List ℕ) (len : ℕ)
    → 0 < length old
    → 0 < length buf
    → 0 < len
    → byte_at (overwrite old buf len) 0 ≡ byte_at buf 0
first_byte old buf zero a b c = absurd (omega arith)
first_byte [] buf (suc len) a b c = absurd (omega arith)
first_byte (x ∷ old) [] (suc len) a b c = absurd (omega arith)
first_byte (x ∷ old) (y ∷ buf) (suc len) a b c = refl

-- A stack in the asynchronous mode, with a valid running unit that has nothing received and whose
-- next packet has an array of at least one byte, receives a message of at least one byte whose first
-- byte is not the protocol's version. The message is accepted, and after that the loop of `mpu_task`
-- over the queues does not end, whatever number of rounds and whatever fuel it is given.
pub drain-receive :
    (n : Errno) (fuel : ℕ) (u : Umtp) (mpu : Mpu) (src : UmtpAddr) (buf : List ℕ) (len : ℕ)
    → Positive n
    → u.sync_mode ≡ false
    → u.mpu ≡ some mpu
    → MpuIsValid mpu
    → mpu.running ≡ true
    → queued recv mpu ≡ []
    → 0 < length (next_packet recv mpu).buffer
    → 0 < length buf
    → 0 < len
    → byte_at buf 0 ≢ protocol_version
    → (u' : Umtp) × (receive n fuel u src buf len ≡ some u')
      × ((rounds fuel' : ℕ) → drain n rounds fuel' u' ≡ none)
drain-receive n fuel u mpu src buf len p async unit v run none_in wide some_bytes pos ne =
    let pkt : MpuPacket = filled src u.self buf len (next_packet recv mpu) in
    let room : HasRoom recv mpu =
      omega (arith, slots-count mpu.recv_queue mpu.packets none_in, v.recv.positive) in
    let full : full (some mpu.recv_queue) ≡ false = room-full mpu.recv_queue room in
    (
      record u { mpu = some (stored recv mpu pkt) },
      receive-stored n fuel u mpu src buf len async unit v run room,
      λ rounds fuel'.
          drain-version n rounds fuel' (record u { mpu = some (stored recv mpu pkt) })
            (stored recv mpu pkt) pkt [] p refl
            ((enqueue-waiting v.recv v.recv_size mpu.packets n src u.self buf len full).2
              ∙ ap (λ q. q ++ pkt ∷ []) none_in)
            (λ e.
              ne (sym (first_byte (next_packet recv mpu).buffer buf len wide some_bytes pos) ∙ e)),
    )
