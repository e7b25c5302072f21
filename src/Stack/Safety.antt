-- ===== src/Stack/Safety.antt =====
-- Each operation of the stack's threads returns, and keeps the stack valid.
use umtp.Base.{
  ℕ, ◌<◌, ◌%◌, ◌≡◌, refl, sym, ap, ◌∙◌, Bool, true, false, not, Option, some, none, List, [], ◌∷◌,
  length, if◌then◌else◌, ◌>>=◌, u16_mod,
}
use mathlib.Core.Path.{subst}
use umtp.Addr.{UmtpAddr}
use umtp.Errno.{Errno}
use umtp.Session.{Event, umtp_session_process}
use umtp.Session.Process.{session_process-IsValid}
use umtp.Mpu.{MpuPacket, Mpu, Side, recv, send, Handler, mpu_msg_handle, mpu_put_recv, drop_packet}
use umtp.Mpu.Queue.{MpuIsValid}
use umtp.Mpu.Keep.{
  Kept, mpu_msg_handle-Kept, drop_packet-MpuIsValid, mpu_put_recv-MpuIsValid, mpu_put_recv-null,
}
use umtp.Npdu.{Umtp, npdu_send}
use umtp.Npdu.Handler.{npdu_handler}
use umtp.Apdu.Submit.{put_send-eq}
use umtp.Apdu.Keep.{
  StackIsValid, UnitIsValid, EndsValid, unit-StackIsValid, sessions-StackIsValid,
  npdu_send-StackIsValid,
}
use umtp.Apdu.Total.{npdu_handler-EndsValid, handle_event-Valid}
use umtp.Stack.{
  with_unit, unit_or, hand_back, send_msg, handle_msg, receive, handle_events, process_time,
}

-- The result of an operation that always returns.
abbrev pub Returns : List ℕ → Option Umtp → Type 0
Returns ps r = (u : Umtp) × (r ≡ some u) × StackIsValid ps u

ended :
    (ps : List ℕ) (r : Option (ℕ × Umtp))
    → EndsValid ps r
    → (ret : ℕ) × (u : Umtp) × (r ≡ some (ret, u)) × StackIsValid ps u
ended ps none v = absurd v
ended ps (some (ret, u)) v = (ret, u, refl, v)

on_modes :
    (ps : List ℕ) (b : Bool) (x y : Option Umtp)
    → Returns ps x
    → Returns ps y
    → Returns ps (if b then x else y)
on_modes ps true x y p q = p
on_modes ps false x y p q = q

-- The unit beside the stack, as a handler gets it.
abbrev pub Beside : List ℕ → Mpu × Umtp → Type 0
Beside ps (mpu, u) = StackIsValid ps (with_unit mpu u)

unit_or-MpuIsValid :
    (mpu : Mpu) (after : Option Mpu)
    → MpuIsValid mpu
    → UnitIsValid after
    → MpuIsValid (unit_or mpu after)
unit_or-MpuIsValid mpu none v w = v
unit_or-MpuIsValid mpu (some mpu') v w = w

hand_back-Beside :
    (ps : List ℕ) (mpu : Mpu) (u u' : Umtp) (ret : ℕ)
    → Beside ps (mpu, u)
    → StackIsValid ps u'
    → let r = hand_back mpu u (ret, u') in Beside ps (r.1, r.2)
hand_back-Beside ps mpu u u' ret v w =
    unit-StackIsValid ps u' (some (unit_or mpu u'.mpu)) w
      (unit_or-MpuIsValid mpu u'.mpu v.unit w.unit)

drop-Beside :
    (ps : List ℕ) (side : Side) (mpu : Mpu) (u : Umtp)
    → Beside ps (mpu, u)
    → Beside ps (drop_packet side mpu, u)
drop-Beside ps side mpu u v =
    unit-StackIsValid ps (with_unit mpu u) (some (drop_packet side mpu)) v
      (drop_packet-MpuIsValid side mpu v.unit)

-- The handler of a queue.
abbrev pub handler_of : Errno → ℕ → Side → Handler Umtp
handler_of n fuel recv = handle_msg n fuel
handler_of n fuel send = send_msg n

module _ (n : Errno) (fuel : ℕ) (ps : List ℕ) (enough : length ps < fuel) where
  handle_msg-Beside :
      (pkt : MpuPacket) (mpu : Mpu) (u : Umtp)
      → Beside ps (mpu, u)
      → (ret : ℕ) × (mpu' : Mpu) × (u' : Umtp) × (handle_msg n fuel pkt (mpu, u)
          ≡ some (ret, mpu', u'))
        × Beside ps (mpu', u')
  unfolding handle_msg
  handle_msg-Beside pkt mpu u v =
      let (ret, u', e, w) =
        ended ps (npdu_handler n fuel (with_unit mpu u) pkt.addr pkt.buffer pkt.length) (
          npdu_handler-EndsValid n fuel ps (with_unit mpu u) v enough pkt.addr pkt.buffer
            pkt.length) in
      (
        ret,
        unit_or mpu u'.mpu,
        record u' { mpu = u.mpu },
        ap (λ r. r >>= λ r. some (hand_back mpu u r)) e,
        hand_back-Beside ps mpu u u' ret v w,
      )

  send_msg-Beside :
      (pkt : MpuPacket) (mpu : Mpu) (u : Umtp)
      → Beside ps (mpu, u)
      → (ret : ℕ) × (mpu' : Mpu) × (u' : Umtp) × (send_msg n pkt (mpu, u) ≡ some (ret, mpu', u'))
        × Beside ps (mpu', u')
  unfolding send_msg
  send_msg-Beside pkt mpu u v =
      let r : ℕ × Umtp = npdu_send n (with_unit mpu u) pkt.addr pkt.buffer pkt.length in
      (
        r.0,
        unit_or mpu r.1.mpu,
        record r.1 { mpu = u.mpu },
        refl,
        hand_back-Beside ps mpu u r.1 r.0 v
            (npdu_send-StackIsValid n ps (with_unit mpu u) pkt.addr pkt.buffer pkt.length v),
      )

  pub msg_handle-Beside :
      (side : Side) (mpu : Mpu) (u : Umtp)
      → Beside ps (mpu, u)
      → Kept (Beside ps) (mpu_msg_handle side (some (handler_of n fuel side)) (mpu, u))
  msg_handle-Beside recv =
      mpu_msg_handle-Kept (Beside ps) recv (handle_msg n fuel) (drop-Beside ps recv)
        handle_msg-Beside
  msg_handle-Beside send =
      mpu_msg_handle-Kept (Beside ps) send (send_msg n) (drop-Beside ps send) send_msg-Beside

  put_recv-UnitIsValid :
      (mpu : Option Mpu) (src : UmtpAddr) (data_ptr : ℕ) (msg : List ℕ) (len : ℕ)
      → UnitIsValid mpu
      → UnitIsValid (mpu_put_recv n mpu src data_ptr msg len).1
  put_recv-UnitIsValid none src data_ptr msg len v =
      subst (λ r. UnitIsValid r.1) (sym (mpu_put_recv-null n src data_ptr msg len)) tt
  put_recv-UnitIsValid (some mpu) src data_ptr msg len v =
      let (ret, mpu', put, v') = mpu_put_recv-MpuIsValid n mpu src data_ptr msg len v in
      subst (λ r. UnitIsValid r.1) (sym put) v'

  pub receive-Returns :
      (u : Umtp) (src : UmtpAddr) (buf : List ℕ) (len : ℕ)
      → StackIsValid ps u
      → Returns ps (receive n fuel u src buf len)
  unfolding receive
  receive-Returns u src buf len v =
      let (ret, u', done, w) =
        ended ps (npdu_handler n fuel u src buf (len % u16_mod))
          (npdu_handler-EndsValid n fuel ps u v enough src buf (len % u16_mod)) in
      let put : ℕ × Option Mpu = mpu_put_recv n u.mpu src u.self buf len in
      on_modes ps (not u.sync_mode) _ _
        (
          record u { mpu = put.1 },
          ap (λ r. some r.1) (put_send-eq u put),
          unit-StackIsValid ps u put.1 v (put_recv-UnitIsValid u.mpu src u.self buf len v.unit),
        )
        (u', ap (λ r. r >>= λ r. some r.1) done, w)

  handle_events-Returns :
      (u : Umtp) (es : List Event) → StackIsValid ps u → Returns ps (handle_events n fuel u es)
  unfolding handle_events
  handle_events-Returns u [] v = (u, refl, v)
  handle_events-Returns u (e ∷ es) v =
      let (u', done, w) = handle_event-Valid n fuel ps u v enough e in
      let (u'', later, w') = handle_events-Returns u' es w in
      (u'', ap (λ r. r >>= λ u'. handle_events n fuel u' es) done ∙ later, w')

  -- On a valid stack, and with more fuel than services are registered, `umtp_session_process` with
  -- all that it calls returns, whatever sessions expire, and the stack is valid afterwards.
  pub process_time-Returns :
      (u : Umtp) (milliseconds : ℕ)
      → StackIsValid ps u
      → Returns ps (process_time n fuel u milliseconds)
  unfolding process_time
  process_time-Returns u milliseconds v =
      let r = umtp_session_process u.conf u.sessions (milliseconds % u16_mod) in
      handle_events-Returns (record u { sessions = r.0 }) r.1
        (sessions-StackIsValid ps u r.0 v
          (session_process-IsValid u.conf (milliseconds % u16_mod) v.sessions))
