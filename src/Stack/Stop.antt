-- ===== src/Stack/Stop.antt =====
-- The stop of a stack, and how its task ends.
use umtp.Base.{
  ℕ, zero, suc, ◌≡◌, ◌≢◌, ◌^◌, ◌%◌, refl, sym, ap, ◌∙◌, arith, Bool, true, false, Option, some,
  List, [], ◌∷◌, ◌++◌, replicate, ltb, ==_refl, ==_ne, if◌then◌else◌, ◌>>=◌, sub32, u32_mod,
}
use umtp.Addr.{UmtpAddr}
use umtp.Errno.{Errno, Positive, IsErrno, negative, negative-ne-zero}
use umtp.Npdu.{Umtp}
use umtp.Stack.{stop_unit, umtp_stop, Task, Received, keep_time, task_round, umtp_task}
use mathlib.Core.List.{append-nil}

-- A round in which nothing comes before the timeout, within the second `seconds`, and no other thread
-- changes the stack.
abbrev pub quiet : Errno → ℕ → UmtpAddr → (Umtp → Umtp) × ℕ × Received
quiet n seconds src = (λ u. u, seconds, record { len = negative n.etimedout; src = src; buf = [] })

-- A round in which `recv_data` fails with another error.
abbrev pub broken : Errno → ℕ → ℕ → UmtpAddr → (Umtp → Umtp) × ℕ × Received
broken n seconds e src = (λ u. u, seconds, record { len = negative e; src = src; buf = [] })

negative-ltb : (e : ℕ) → IsErrno e → ltb (negative e) (2 ^ 31) ≡ false
negative-ltb e small = ground arith

same_second : (seconds : ℕ) → sub32 (seconds % u32_mod) (seconds % u32_mod) ≡ 0
same_second seconds = omega arith

task_round-quiet :
    (n : Errno) (fuel seconds : ℕ) (src : UmtpAddr) (u : Umtp)
    → Positive n
    → let r : Received = record { len = negative n.etimedout; src = src; buf = [] } in
      task_round n fuel (record { stack = u; last_seconds = seconds }) seconds r
      ≡ some (true, record { stack = u; last_seconds = seconds })
unfolding task_round keep_time
task_round-quiet n fuel seconds src u p =
    rw
      (
        negative-ltb n.etimedout p.etimedout_pos,
        ==_ne (negative n.etimedout) 0 (negative-ne-zero n.etimedout p.etimedout_pos),
        ==_refl (negative n.etimedout),
        same_second seconds,
      )
      refl

task_round-broken :
    (n : Errno) (fuel seconds e : ℕ) (src : UmtpAddr) (u : Umtp)
    → IsErrno e
    → negative e ≢ negative n.etimedout
    → let r : Received = record { len = negative e; src = src; buf = [] } in
      task_round n fuel (record { stack = u; last_seconds = seconds }) seconds r
      ≡ some (false, record { stack = u; last_seconds = seconds })
unfolding task_round keep_time
task_round-broken n fuel seconds e src u small other =
    rw (negative-ltb e small, ==_ne (negative e) (negative n.etimedout) other) refl

task_next :
    (n : Errno) (fuel seconds : ℕ) (t t' : Task) (b : Bool) (r : Received)
    (rounds : List ((Umtp → Umtp) × ℕ × Received))
    → t.stack.running ≡ true
    → task_round n fuel t seconds r ≡ some (b, t')
    → umtp_task n fuel t ((λ u. u, seconds, r) ∷ rounds)
      ≡ (if b then umtp_task n fuel t' rounds else some (record t'.stack { running = false }))
unfolding umtp_task
task_next n fuel seconds t t' b r rounds run done =
    let goes_on : Bool × Task → Option Umtp = λ s.
      if◌then◌else◌ {A = Option Umtp} s.0 (umtp_task n fuel s.1 rounds)
        (some (record s.1.stack { running = false })) in
    ap
      (λ running.
        if◌then◌else◌ {A = Option Umtp} running (task_round n fuel t seconds r >>= goes_on)
          (some (record t.stack { running = false })))
      run
    ∙ ap (λ r. r >>= goes_on) done

umtp_task-quiet :
    (n : Errno) (fuel seconds count : ℕ) (src : UmtpAddr) (u : Umtp)
    (rounds : List ((Umtp → Umtp) × ℕ × Received))
    → Positive n
    → u.running ≡ true
    → let t : Task = record { stack = u; last_seconds = seconds } in
      umtp_task n fuel t (replicate count (quiet n seconds src) ++ rounds)
      ≡ umtp_task n fuel t rounds
unfolding umtp_task
umtp_task-quiet n fuel seconds zero src u rounds p run = refl
umtp_task-quiet n fuel seconds (suc count) src u rounds p run =
    let t : Task = record { stack = u; last_seconds = seconds } in
    task_next n fuel seconds t t true (record { len = negative n.etimedout; src = src; buf = [] })
      (replicate count (quiet n seconds src) ++ rounds) run
      (task_round-quiet n fuel seconds src u p)
    ∙ umtp_task-quiet n fuel seconds count src u rounds p run

-- As `umtp_stop` begins to wait for the stack's task, the task has not been told to end: through any
-- number of rounds without a message within one second it goes on, and leaves the stack as it is. It
-- ends in the round in which receiving fails with an error that is not a timeout, as it does on a
-- closed socket.
pub umtp_stop-umtp_task :
    (n : Errno) (has_exit : Bool) (fuel seconds count e : ℕ) (src : UmtpAddr) (u : Umtp)
    (rounds : List ((Umtp → Umtp) × ℕ × Received))
    → Positive n
    → IsErrno e
    → negative e ≢ negative n.etimedout
    → (u' : Umtp) × ((umtp_stop has_exit (some u)).0 ≡ some u')
      × (let t : Task = record { stack = u'; last_seconds = seconds } in
          let waits = replicate count (quiet n seconds src) in
          (umtp_task n fuel t waits ≡ some u')
          × (u'.running ≡ true)
          × (umtp_task n fuel t (waits ++ broken n seconds e src ∷ rounds)
              ≡ some (record u' { running = false })))
unfolding umtp_stop umtp_task
umtp_stop-umtp_task n has_exit fuel seconds count e src u rounds p small other =
    let u' : Umtp = record u { mpu = (stop_unit u.mpu).0; running = true } in
    let t : Task = record { stack = u'; last_seconds = seconds } in
    let broke : Received = record { len = negative e; src = src; buf = [] } in
    (
      u',
      refl,
      (
        ap (umtp_task n fuel t) (sym (append-nil (replicate count (quiet n seconds src))))
            ∙ umtp_task-quiet n fuel seconds count src u' [] p refl,
        refl,
        umtp_task-quiet n fuel seconds count src u' (broken n seconds e src ∷ rounds) p refl
            ∙ task_next n fuel seconds t t false broke rounds refl
                (task_round-broken n fuel seconds e src u' small other),
      ),
    )
