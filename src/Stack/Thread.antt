-- ===== src/Stack/Thread.antt =====
-- The thread of the unit while requests arrive.
use umtp.Base.{
  ℕ, suc, ◌+◌, ◌-◌, ◌<◌, ◌≤◌, ◌≡◌, ◌≢◌, refl, sym, ap, ◌∙◌, true, false, Option, some, none, List,
  [], ◌∷◌, ◌++◌, arith, length,
}
use mathlib.Core.List.{append_assoc}
use umtp.Errno.{Errno}
use umtp.RingBuf.Slots.{slots-count}
use umtp.Mpu.{Mpu, recv, send, mpu_drain, mpu_task}
use umtp.Mpu.Drain.{queued}
use umtp.Mpu.Thread.{drain-more, task-ends, task-signalled, task-timeout}
use umtp.Apdu.Wire.{frame}
use umtp.Npdu.{sent, Umtp, SendData}
use umtp.Service.{Services}
use umtp.Stack.{stack_handlers, unit_or, with_unit}
use umtp.Stack.Carry.{Running}
use umtp.Stack.Modes.{after_all, sent_all, after_all-nil}
use umtp.Stack.Serve.{Request, answer_of, SameSize}
use umtp.Stack.Requests.{AllServed, receive_all, receive_all-async, drain-served, answers}

-- What the stack's task does while the thread of the unit waits: it receives requests, and the last
-- one wakes the thread, or nothing comes for a second.
pub data Wait : Type 0 where
  requests : List Request → Wait
  nothing : Wait

abbrev handed_back : Mpu → Umtp → Option Umtp → Mpu × Umtp
handed_back mpu u none = (mpu, u)
handed_back mpu u (some u') = (unit_or mpu u'.mpu, record u' { mpu = u.mpu })

abbrev pub waits_of : Errno → ℕ → List Wait → List ((Mpu × Umtp → Mpu × Umtp) × ℕ)
waits_of n fuel [] = []
waits_of n fuel (requests rs ∷ ws) =
    (λ st. handed_back st.0 st.1 (receive_all n fuel (with_unit st.0 st.1) rs), 0)
    ∷ waits_of n fuel ws
waits_of n fuel (nothing ∷ ws) = (λ st. st, n.etimedout) ∷ waits_of n fuel ws

abbrev pub requests_of : List Wait → List Request
requests_of [] = []
requests_of (requests rs ∷ ws) = rs ++ requests_of ws
requests_of (nothing ∷ ws) = requests_of ws

-- No batch is larger than the receive queue or the fuel.
abbrev pub Fit : (size rounds : ℕ) → List Wait → Type 0
Fit size rounds [] = Unit {0}
Fit size rounds (requests rs ∷ ws) =
    ((length rs ≤ size) × (length rs < rounds)) × Fit size rounds ws
Fit size rounds (nothing ∷ ws) = Fit size rounds ws

AllServed-append :
    (n : Errno) (fuel : ℕ) (sv : Services) (send_data : SendData) (xs ys : List Request)
    → AllServed n fuel sv send_data (xs ++ ys)
    → AllServed n fuel sv send_data xs × AllServed n fuel sv send_data ys
AllServed-append n fuel sv send_data [] ys ok = (tt, ok)
AllServed-append n fuel sv send_data (x ∷ xs) ys ok =
    let (xs_ok, ys_ok) = AllServed-append n fuel sv send_data xs ys ok.1 in ((ok.0, xs_ok), ys_ok)

sent-append :
    (xs ys : List Request)
    → sent_all (answers (xs ++ ys)) ≡ sent_all (answers xs) ++ sent_all (answers ys)
sent-append [] ys = refl
sent-append (x ∷ xs) ys =
    ap (λ l. sent x.src (frame (answer_of x)) (length (frame (answer_of x))) ∷ l)
      (sent-append xs ys)

after_all-append :
    (u : Umtp) (xs ys : List Request)
    → after_all (after_all u (answers xs)) (answers ys) ≡ after_all u (answers (xs ++ ys))
after_all-append u xs ys =
    ap (λ e. record u { effects = e })
      (append_assoc u.effects (sent_all (answers xs)) (sent_all (answers ys))
        ∙ ap (λ l. u.effects ++ l) (sym (sent-append xs ys)))

-- A batch of requests is received, and then answered.
batch-answered :
    (n : Errno) (rounds fuel : ℕ) (u : Umtp) (mpu : Mpu) (send_data : SendData) (rs : List Request)
    → u.sync_mode ≡ false
    → u.dl ≡ some send_data
    → Running mpu
    → queued recv mpu ≡ []
    → queued send mpu ≡ []
    → length rs ≤ mpu.recv_queue.element_count
    → length rs < rounds
    → AllServed n fuel u.services send_data rs
    → (mpu' : Mpu) × (mpu_drain rounds
          (stack_handlers n fuel)
          (handed_back mpu u (receive_all n fuel (with_unit mpu u) rs))
        ≡ some (mpu', after_all u (answers rs)))
      × Running mpu'
      × (queued recv mpu' ≡ [])
      × (queued send mpu' ≡ [])
      × SameSize mpu mpu'
batch-answered n rounds fuel u mpu send_data rs async link run none_in none_out room enough ok =
    let (full, pkts, received, full_run, waits, sends, carry, size) =
      receive_all-async n fuel (with_unit mpu u) mpu send_data rs async refl run ok
        (omega (arith, slots-count mpu.recv_queue mpu.packets none_in)) in
    let (mpu', ended, run', none_in', none_out', size') =
      drain-served n fuel u send_data rs full pkts async link ok full_run
        (waits ∙ ap (λ q. q ++ pkts) none_in) (sends ∙ none_out) carry in
    let whole : rounds ≡ suc (length rs) + (rounds - suc (length rs)) = omega arith in
    (
      mpu',
      ap (λ r. mpu_drain rounds (stack_handlers n fuel) (handed_back mpu u r)) received
          ∙ ap (λ k. mpu_drain k (stack_handlers n fuel) (full, u)) whole
          ∙ drain-more (stack_handlers n fuel) (suc (length rs)) (rounds - suc (length rs))
              (full, u) (mpu', after_all u (answers rs)) ended,
      run',
      none_in',
      none_out',
      size' ∙ size,
    )

-- A stack in the asynchronous mode, with a data link and a running unit whose queues are valid and
-- empty and whose arrays have MAX_MPU_DATA bytes. `mpu_task` waits again and again; in each wait the
-- stack's task receives confirmed requests, no more than the receive queue has elements and fewer than
-- the fuel of the loop over the queues, and wakes the thread, or nothing comes until the wait ends.
-- Each request fits a packet, its answer fits MAX_APDU, its service gives the same answer whatever follows
-- the request in its array, and the data link takes the answer with status 0. After the last wait the
-- thread still runs and the queues are empty, and each request has been answered by one frame to its
-- source, in the order of the requests; the rest of the stack is as before.
pub mpu_task-answers :
    (n : Errno) (rounds fuel : ℕ) (u : Umtp) (mpu : Mpu) (send_data : SendData) (ws : List Wait)
    → n.etimedout ≢ 0
    → u.sync_mode ≡ false
    → u.dl ≡ some send_data
    → Running mpu
    → queued recv mpu ≡ []
    → queued send mpu ≡ []
    → Fit mpu.recv_queue.element_count rounds ws
    → AllServed n fuel u.services send_data (requests_of ws)
    → (mpu' : Mpu) × (mpu_task n rounds (stack_handlers n fuel) (waits_of n fuel ws) (mpu, u)
        ≡ some
            (true, mpu', record u { effects = u.effects ++ sent_all (answers (requests_of ws)) }))
      × (queued recv mpu' ≡ [])
      × (queued send mpu' ≡ [])
mpu_task-answers n rounds fuel u mpu send_data [] ne async link run none_in none_out fit ok = (
  mpu,
  task-ends (stack_handlers n fuel) n rounds (mpu, u)
      ∙ ap (λ b. some (b, mpu, u)) run.runs
      ∙ ap (λ u. some (true, mpu, u)) (sym (after_all-nil u)),
  none_in,
  none_out,
)
mpu_task-answers n rounds fuel u mpu send_data (requests rs ∷ ws) ne async link run none_in none_out
      ((room, enough), fit) ok =
    let (here, later) = AllServed-append n fuel u.services send_data rs (requests_of ws) ok in
    let (mpu1, ended, run1, none_in1, none_out1, size) =
      batch-answered n rounds fuel u mpu send_data rs async link run none_in none_out room enough
        here in
    let (mpu', done, none_in', none_out') =
      mpu_task-answers n rounds fuel (after_all u (answers rs)) mpu1 send_data ws ne async link run1
        none_in1 none_out1 (rw size fit) later in
    (
      mpu',
      task-signalled (stack_handlers n fuel) n rounds
            (λ st. handed_back st.0 st.1 (receive_all n fuel (with_unit st.0 st.1) rs))
            (waits_of n fuel ws) (mpu, u) run.runs (mpu1, after_all u (answers rs)) ended
          ∙ done
          ∙ ap (λ u. some (true, mpu', u)) (after_all-append u rs (requests_of ws)),
      none_in',
      none_out',
    )
mpu_task-answers n rounds fuel u mpu send_data (nothing ∷ ws) ne async link run none_in none_out fit
      ok =
    let (mpu', done, none_in', none_out') =
      mpu_task-answers n rounds fuel u mpu send_data ws ne async link run none_in none_out fit ok in
    (
      mpu',
      task-timeout (stack_handlers n fuel) n rounds (λ st. st) (waits_of n fuel ws) (mpu, u)
            run.runs ne
          ∙ done,
      none_in',
      none_out',
    )
