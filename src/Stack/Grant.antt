-- ===== src/Stack/Grant.antt =====
-- What `umtp_alloc` and `umtp_start` give in the two modes if nothing fails.
use umtp.Base.{
  ℕ, ◌≤◌, ◌≡◌, inr, refl, ap, ◌∙◌, Bool, true, false, not, Option, none, some, List, [], length,
  ◌∷◌, if◌then◌else◌, ◌<◌, ◌%◌, u16_mod, ◌>>=◌, arith,
}
use umtp.Errno.{Errno}
use umtp.Addr.{UmtpAddr}
use umtp.Session.{Sessions}
use umtp.Service.{Services}
use umtp.Apdu.{ApduData, umtp_apdu_submit, put_send}
use umtp.Mpu.{Mpu, recv, send, max_mpu_data, mpu_create, mpu_put_recv}
use umtp.Mpu.Drain.{queued}
use umtp.Npdu.{Umtp, SendData}
use umtp.Npdu.Handler.{npdu_handler}
use umtp.Stack.{
  Answers, Action, init_link, umtp_alloc, umtp_start, start_with_link, start_link, start_unit,
  umtp_send_message, receive,
}
use umtp.Stack.Carry.{Running}
use umtp.Stack.Start.{start_link-granted, umtp_start-link, with_running, link_calls}

-- The stack before `umtp_start`, with the services that are registered by then.
abbrev pub allocated : Umtp → ℕ → Bool → SendData → Services → Umtp
allocated statics p sync_mode link sv = record statics {
  self = p;
  sync_mode = sync_mode;
  dl = some link;
  mpu = none;
  running = false;
  services = sv;
}

pub umtp_alloc-some :
    (statics : Umtp) (sync_mode : Bool) (link : SendData) (p : ℕ)
    → umtp_alloc statics (some sync_mode) (some link) (some p)
      ≡ some (allocated statics p sync_mode link statics.services)
unfolding umtp_alloc
umtp_alloc-some statics sync_mode link p = refl

-- In the synchronous mode.
pub umtp_start-sync :
    (n : Errno) (u : Umtp) (link : SendData) (a : Answers)
    → u.sync_mode ≡ true
    → u.dl ≡ some link
    → a.init ≡ some 0
    → a.task_thread ≡ 0
    → umtp_start n (some u) a ≡ (0, some (record u { running = true }), init_link ∷ [])
unfolding umtp_start start_with_link
umtp_start-sync n u link a sync e init task =
    ap (λ dl. let r = start_with_link n u dl a in (r.0, some r.1, r.2)) e
    ∙ ap
        (λ sync.
          let r =
            if◌then◌else◌ {A = ℕ × Umtp × List Action} (not sync)
              (start_unit n u (mpu_create a.memory a.recv_buffer) a)
              (start_link u a.init a.task_thread) in
          (r.0, some r.1, r.2))
        sync
    ∙ ap (λ r. (r.0, some r.1, r.2)) (start_link-granted u a.init a.task_thread (inr init) task)
    ∙ ap (λ i. (0, some (record u { running = true }), link_calls i)) init

-- In the asynchronous mode: the stack has a running unit with empty queues.
pub umtp_start-async :
    (n : Errno) (u : Umtp) (link : SendData) (a : Answers) (old : Mpu)
    → u.sync_mode ≡ false
    → u.dl ≡ some link
    → a.memory ≡ some old
    → a.mpu_thread ≡ 0
    → a.init ≡ some 0
    → a.task_thread ≡ 0
    → ((p : ℕ) → max_mpu_data ≤ length (old.packets p).buffer)
    → (mpu : Mpu) × (umtp_start n (some u) a
        ≡ (0, some (record u { running = true; mpu = some mpu }), init_link ∷ []))
      × Running mpu
      × (queued recv mpu ≡ [])
      × (queued send mpu ≡ [])
      × (mpu.recv_queue.element_count ≡ 16)
umtp_start-async n u link a old async e memory thread init task wide =
    let (mpu, started, v, none_in, none_out, recv_count, packets) =
      umtp_start-link n u link a old async e memory thread in
    (
      record mpu { running = true },
      started
          ∙ ap (λ r. (r.0, some r.1, r.2))
              (start_link-granted (with_running u mpu) a.init a.task_thread (inr init) task)
          ∙ ap (λ i. (0, some (record (with_running u mpu) { running = true }), link_calls i)) init,
      record {
        valid = record {
          recv = v.recv;
          send = v.send;
          recv_size = v.recv_size;
          send_size = v.send_size;
          apart = v.apart;
          live = v.live;
        };
        runs = refl;
        wide = λ p. rw packets (wide p);
      },
      none_in,
      none_out,
      recv_count,
    )

pub send_message-submit :
    (n : Errno) (sleeps : List (Sessions → Sessions)) (u : Umtp) (dst : UmtpAddr)
    (d : Option ApduData)
    → umtp_send_message n sleeps u dst d ≡ umtp_apdu_submit n sleeps u dst d
unfolding umtp_send_message
send_message-submit n sleeps u dst d = refl

-- In the synchronous mode a message is handled as it is received.
pub receive-sync :
    (n : Errno) (fuel : ℕ) (u : Umtp) (src : UmtpAddr) (buf : List ℕ) (len : ℕ)
    → u.sync_mode ≡ true
    → len < u16_mod
    → receive n fuel u src buf len ≡ (npdu_handler n fuel u src buf len >>= λ r. some r.1)
unfolding receive
receive-sync n fuel u src buf len sync short =
    ap
      (λ b.
        if not b
        then some (put_send u (mpu_put_recv n u.mpu src u.self buf len)).1
        else (npdu_handler n fuel u src buf (len % u16_mod) >>= λ r. some r.1))
      sync
    ∙ ap (λ l. npdu_handler n fuel u src buf l >>= λ r. some r.1) (omega arith)
