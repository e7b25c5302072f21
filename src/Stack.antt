-- ===== src/Stack.antt =====
-- core/umtp.c and include/umtp.h: the stack as a whole, its start and stop, the task that receives, and
-- the two handlers of the message process unit. `conf` is never NULL after `umtp_alloc`. What the
-- operating system and the data link answer are arguments.
pub mod Async
pub mod Carry
pub mod Modes
pub mod Serve
pub mod Requests
pub mod Thread
pub mod Start
pub mod Grant
pub mod Stop
pub mod Safety
pub mod Steps
mod Tests
use umtp.Base.{
  ℕ, zero, suc, ◌+◌, ◌-◌, ◌*◌, ◌%◌, ◌^◌, Bool, true, false, not, ◌&&◌, Option, none, some, List, [],
  ◌∷◌, ◌++◌, ltb, ◌==◌, if◌then◌else◌, ◌>>=◌, sub32, mul32, u16_mod, u32_mod,
}
use umtp.Addr.{UmtpAddr}
use umtp.Errno.{Errno, negative}
use umtp.Session.{Sessions, Event, umtp_session_process}
use umtp.Mpu.{
  MpuPacket, Mpu, Handler, Handlers, mpu_create, mpu_start, mpu_stop, mpu_destroy, mpu_put_recv,
  mpu_drain,
}
use umtp.Npdu.{Umtp, SendData, npdu_send, positive}
use umtp.Npdu.Handler.{npdu_handler}
use umtp.Apdu.{ApduData, put_send, umtp_apdu_submit, handle_event}

-- The unit after a handler; no handler takes it away.
abbrev pub unit_or : Mpu → Option Mpu → Mpu
unit_or mpu none = mpu
unit_or mpu (some mpu') = mpu'

-- A handler works on the stack with its unit; afterwards the unit stands beside the stack again.
abbrev pub with_unit : Mpu → Umtp → Umtp
with_unit mpu u = record u { mpu = some mpu }

abbrev pub hand_back : Mpu → Umtp → ℕ × Umtp → ℕ × Mpu × Umtp
hand_back mpu u (ret, u') = (ret, unit_or mpu u'.mpu, record u' { mpu = u.mpu })

-- `_umtp_send_msg` and `_umtp_handle_msg`. The `data` of every packet is the stack.
pub send_msg : Errno → Handler Umtp
send_msg n pkt (mpu, u) =
    some (hand_back mpu u (npdu_send n (with_unit mpu u) pkt.addr pkt.buffer pkt.length))

pub handle_msg : Errno → ℕ → Handler Umtp
handle_msg n fuel pkt (mpu, u) =
    npdu_handler n fuel (with_unit mpu u) pkt.addr pkt.buffer pkt.length >>= λ r.
    some (hand_back mpu u r)

abbrev pub stack_handlers : Errno → ℕ → Handlers Umtp
stack_handlers n fuel = record {
  recv_handler = some (handle_msg n fuel);
  send_handler = some (send_msg n);
}

-- The inner loop of `mpu_task` on the stack, with its own fuel first.
drain_unit : Errno → ℕ → ℕ → Umtp → Option Mpu → Option Umtp
unfolding handle_msg send_msg
drain_unit n rounds fuel u none = some u
drain_unit n rounds fuel u (some mpu) =
    mpu_drain rounds (stack_handlers n fuel) (mpu, u) >>= λ r. some (with_unit r.0 r.1)

pub drain : Errno → ℕ → ℕ → Umtp → Option Umtp
unfolding drain_unit
drain n rounds fuel u = drain_unit n rounds fuel u u.mpu

-- A message in `umtp_task`; an error of a handler is only reported, and the length that `npdu_handler`
-- takes has 16 bits.
pub receive : Errno → ℕ → Umtp → UmtpAddr → List ℕ → ℕ → Option Umtp
receive n fuel u src buf len =
    if not u.sync_mode
    then some (put_send u (mpu_put_recv n u.mpu src u.self buf len)).1
    else (npdu_handler n fuel u src buf (len % u16_mod) >>= λ r. some r.1)

pub handle_events : Errno → ℕ → Umtp → List Event → Option Umtp
handle_events n fuel u [] = some u
handle_events n fuel u (e ∷ es) = handle_event n fuel u e >>= λ u'. handle_events n fuel u' es

-- `umtp_session_process`, whose parameter has 16 bits, with what it calls.
pub process_time : Errno → ℕ → Umtp → ℕ → Option Umtp
unfolding handle_events
process_time n fuel u milliseconds =
    let (st, events) = umtp_session_process u.conf u.sessions (milliseconds % u16_mod) in
    handle_events n fuel (record u { sessions = st }) events

-- The local `last_seconds` of `umtp_task`.
pub record Task : Type 0 where
  pub stack : Umtp
  pub last_seconds : ℕ

-- From `elapsed_seconds` on.
pub keep_time : Errno → ℕ → Task → ℕ → Option Task
unfolding process_time
keep_time n fuel t current_seconds =
    let elapsed_seconds = sub32 (current_seconds % u32_mod) (t.last_seconds % u32_mod) in
    let timed = process_time n fuel t.stack (mul32 elapsed_seconds 1000) >>= λ u.
    some (record { stack = u; last_seconds = current_seconds }) in
    if elapsed_seconds == 0 then some t else timed

-- What `recv_data` gave: the length, an `int`, and through its pointers the source and the bytes.
pub record Received : Type 0 where
  pub len : ℕ
  pub src : UmtpAddr
  pub buf : List ℕ

-- One round of `umtp_task`; the result tells whether the loop goes on.
pub task_round : Errno → ℕ → Task → ℕ → Received → Option (Bool × Task)
unfolding receive keep_time
task_round n fuel t current_seconds r =
    let got =
      if positive r.len
      then (receive n fuel t.stack r.src r.buf r.len >>= λ u. some (record t { stack = u }))
      else some t in
    if not (ltb r.len (2 ^ 31)) && not (r.len == negative n.etimedout)
    then some (false, t)
    else (got >>= λ t'. keep_time n fuel t' current_seconds >>= λ t''. some (true, t''))

-- `umtp_task`: for each round what the other threads did before it, the time, and what was received.
-- The result is the stack as the list or the loop ends.
pub umtp_task : Errno → ℕ → Task → List ((Umtp → Umtp) × ℕ × Received) → Option Umtp
unfolding task_round
umtp_task n fuel t [] = some t.stack
umtp_task n fuel t ((others, seconds, r) ∷ rounds) =
    let t' = record t { stack = others t.stack } in
    let went = task_round n fuel t' seconds r >>= λ s.
    let later = umtp_task n fuel s.1 rounds in
    if s.0 then later else some (record s.1.stack { running = false }) in
    if t'.stack.running then went else some (record t'.stack { running = false })

-- What `umtp_start` is answered: the memory for the unit with the address of its buffers, and the
-- results of the three calls; `init` is `none` for NULL.
pub record Answers : Type 0 where
  pub memory : Option Mpu
  pub recv_buffer : ℕ
  pub mpu_thread : ℕ
  pub init : Option ℕ
  pub task_thread : ℕ

-- What `umtp_start` and `umtp_stop` do besides changing the stack.
pub data Action : Type 0 where
  init_link exit_link stop_mpu destroy_mpu join_task free_stack : Action

-- The calls that follow the creation of the unit.
pub start_task : Umtp → (task_thread : ℕ) → ℕ × Umtp
start_task u task_thread =
    if task_thread == 0
    then (0, record u { running = true })
    else (task_thread, record u { running = false })

pub start_link : Umtp → Option ℕ → (task_thread : ℕ) → ℕ × Umtp × List Action
unfolding start_task
start_link u none task_thread = let r = start_task u task_thread in (r.0, r.1, [])
start_link u (some ret) task_thread =
    let r = start_task u task_thread in
    if ret == 0 then (r.0, r.1, init_link ∷ []) else (ret, u, init_link ∷ [])

pub start_unit : Errno → Umtp → Option Mpu → Answers → ℕ × Umtp × List Action
unfolding start_link
start_unit n u none a = (negative n.enomem, record u { mpu = none }, [])
start_unit n u (some mpu) a =
    let (ret, mpu') = mpu_start n (some mpu) a.mpu_thread in
    let u' = record u { mpu = mpu' } in
    if ret == 0
    then start_link u' a.init a.task_thread
    else (ret, record u { mpu = mpu_destroy mpu' }, destroy_mpu ∷ [])

pub start_with_link : Errno → Umtp → Option SendData → Answers → ℕ × Umtp × List Action
unfolding start_unit
start_with_link n u none a = (negative n.einval, u, [])
start_with_link n u (some link) a =
    if not u.sync_mode
    then start_unit n u (mpu_create a.memory a.recv_buffer) a
    else start_link u a.init a.task_thread

pub umtp_start : Errno → Option Umtp → Answers → ℕ × Option Umtp × List Action
unfolding start_with_link
umtp_start n none a = (negative n.einval, none, [])
umtp_start n (some u) a = let r = start_with_link n u u.dl a in (r.0, some r.1, r.2)

-- The unit, which `umtp_stop` stops if it runs, and destroys; the stack keeps the pointer to it.
pub stop_unit : Option Mpu → Option Mpu × List Action
stop_unit none = (none, [])
stop_unit (some mpu) =
    if mpu.running
    then (mpu_destroy (mpu_stop (some mpu)), stop_mpu ∷ destroy_mpu ∷ [])
    else (mpu_destroy (some mpu), destroy_mpu ∷ [])

-- `has_exit` tells whether the data link has an `exit`. The stack is as `pthread_join` begins.
pub umtp_stop : (has_exit : Bool) → Option Umtp → Option Umtp × List Action
unfolding stop_unit
umtp_stop has_exit none = (none, [])
umtp_stop has_exit (some u) =
    let (mpu, actions) = stop_unit u.mpu in
    (
      some (record u { mpu = mpu; running = true }),
      (if has_exit then exit_link ∷ [] else []) ++ actions ++ join_task ∷ [],
    )

-- The static variables are in `statics`; `memory` is what `malloc` gives, and `conf` what the settings
-- say about `sync_mode`, which is false by default.
pub umtp_alloc :
    (statics : Umtp) → Option Bool → Option SendData → (memory : Option ℕ) → Option Umtp
umtp_alloc statics conf none memory = none
umtp_alloc statics conf (some dl) none = none
umtp_alloc statics conf (some dl) (some p) = some (record statics {
  self = p;
  sync_mode = elim conf [ none ↦ false | some sync ↦ sync ];
  dl = some dl;
  mpu = none;
  running = false;
})

pub umtp_free : (has_exit : Bool) → Option Umtp → List Action
unfolding umtp_stop
umtp_free has_exit none = []
umtp_free has_exit (some u) =
    (if u.running then (umtp_stop has_exit (some u)).1 else []) ++ free_stack ∷ []

pub umtp_send_message :
    Errno → List (Sessions → Sessions) → Umtp → UmtpAddr → Option ApduData → Option (ℕ × Umtp)
umtp_send_message n sleeps u dst apdu_data = umtp_apdu_submit n sleeps u dst apdu_data
