-- ===== src/Stack/Start.antt =====
-- The start of a stack.
use umtp.Base.{
  ℕ, ◌<◌, ◌≡◌, ◌≢◌, inl, inr, refl, sym, ap, ap₂, ◌∙◌, true, false, not, Option, some, none, List,
  [], ◌∷◌, length, ◌⊎◌, ◌==◌, ==_ne, if◌then◌else◌,
}
use umtp.Errno.{Positive, Errno}
use umtp.Session.Valid.{IsValid}
use umtp.Service.Registry.{Registered}
use umtp.Mpu.{Mpu, recv, send, mpu_create, mpu_start, mpu_destroy}
use umtp.Mpu.Queue.{MpuIsValid}
use umtp.Mpu.Create.{mpu_create-MpuIsValid, mpu_start-zero}
use umtp.Mpu.Drain.{queued}
use umtp.Npdu.{Umtp, SendData}
use umtp.Apdu.Keep.{StackIsValid}
use umtp.Stack.{
  Answers, Action, init_link, destroy_mpu, start_task, start_link, start_unit, start_with_link,
  umtp_start, umtp_alloc,
}
use umtp.Stack.Steps.{Reach, Reach-StackIsValid}

-- The threads and the data link's `init` succeed.
pub record Granted (a : Answers) (old : Mpu) : Type 0 where
  pub memory : a.memory ≡ some old
  pub mpu_thread : a.mpu_thread ≡ 0
  pub init : (a.init ≡ none) ⊎ (a.init ≡ some 0)
  pub task_thread : a.task_thread ≡ 0

abbrev pub link_calls : Option ℕ → List Action
link_calls none = []
link_calls (some ret) = init_link ∷ []

pub start_link-granted :
    (u : Umtp) (init : Option ℕ) (task_thread : ℕ)
    → (init ≡ none) ⊎ (init ≡ some 0)
    → task_thread ≡ 0
    → start_link u init task_thread ≡ (0, record u { running = true }, link_calls init)
unfolding start_link start_task
start_link-granted u init task_thread (inl e) e' = rw (e, e') refl
start_link-granted u init task_thread (inr e) e' = rw (e, e') refl

-- From the start of a unit on.
start_unit-started :
    (n : Errno) (u : Umtp) (mpu : Mpu) (a : Answers)
    → a.mpu_thread ≡ 0
    → start_unit n u (some mpu) a
      ≡ start_link (record u { mpu = some (record mpu { running = true }) }) a.init a.task_thread
unfolding start_unit
start_unit-started n u mpu a e =
    ap
      (λ r.
        if r.0 == 0
        then start_link (record u { mpu = r.1 }) a.init a.task_thread
        else (r.0, record u { mpu = mpu_destroy r.1 }, destroy_mpu ∷ []))
      (ap (mpu_start n (some mpu)) e ∙ mpu_start-zero n mpu)

-- In the asynchronous mode, with memory for the unit.
umtp_start-unit :
    (n : Errno) (u : Umtp) (dl : SendData) (a : Answers) (old : Mpu)
    → u.sync_mode ≡ false
    → u.dl ≡ some dl
    → a.memory ≡ some old
    → let r = start_unit n u (mpu_create (some old) a.recv_buffer) a in
      umtp_start n (some u) a ≡ (r.0, some r.1, r.2)
unfolding umtp_start start_with_link
umtp_start-unit n u dl a old async link memory =
    ap (λ dl. let r = start_with_link n u dl a in (r.0, some r.1, r.2)) link
    ∙ ap
        (λ sync.
          let r =
            if◌then◌else◌ {A = ℕ × Umtp × List Action} (not sync)
              (start_unit n u (mpu_create a.memory a.recv_buffer) a)
              (start_link u a.init a.task_thread) in
          (r.0, some r.1, r.2))
        async
    ∙ ap (λ m. let r = start_unit n u (mpu_create m a.recv_buffer) a in (r.0, some r.1, r.2)) memory

-- The stack with a unit whose task runs.
abbrev pub with_running : Umtp → Mpu → Umtp
with_running u mpu = record u { mpu = some (record mpu { running = true }) }

pub umtp_start-link :
    (n : Errno) (u : Umtp) (dl : SendData) (a : Answers) (old : Mpu)
    → u.sync_mode ≡ false
    → u.dl ≡ some dl
    → a.memory ≡ some old
    → a.mpu_thread ≡ 0
    → (mpu : Mpu) × (let r = start_link (with_running u mpu) a.init a.task_thread in
        umtp_start n (some u) a ≡ (r.0, some r.1, r.2))
      × MpuIsValid mpu
      × (queued recv mpu ≡ [])
      × (queued send mpu ≡ [])
      × (mpu.recv_queue.element_count ≡ 16)
      × (mpu.packets ≡ old.packets)
umtp_start-link n u dl a old async link memory thread =
    let (mpu, created, valid, none_in, none_out, recv_count, send_count, packets) =
      mpu_create-MpuIsValid old a.recv_buffer in
    let as_started : ℕ × Umtp × List Action → ℕ × Option Umtp × List Action =
      λ r. (r.0, some r.1, r.2) in
    (
      mpu,
      umtp_start-unit n u dl a old async link memory
          ∙ ap (λ m. as_started (start_unit n u m a)) created
          ∙ ap as_started (start_unit-started n u mpu a thread),
      valid,
      none_in,
      none_out,
      recv_count,
      packets,
    )

running-StackIsValid :
    (ps : List ℕ) (u : Umtp) (mpu : Mpu)
    → IsValid u.sessions
    → Registered u.services ps
    → MpuIsValid mpu
    → StackIsValid ps (record (with_running u mpu) { running = true })
running-StackIsValid ps u mpu sessions services v = record {
  sessions = sessions;
  services = services;
  unit = record {
    recv = v.recv;
    send = v.send;
    recv_size = v.recv_size;
    send_size = v.send_size;
    apart = v.apart;
    live = v.live;
  };
}

-- What `umtp_alloc` and `umtp_start` make of the static variables.
pub record Started (n : Errno) (statics : Umtp) (dl : SendData) (p : ℕ) (a : Answers) (u : Umtp)
    : Type 0 where
  pub allocated : Umtp
  pub alloc : umtp_alloc statics none (some dl) (some p) ≡ some allocated
  pub start : umtp_start n (some allocated) a ≡ (0, some u, link_calls a.init)
  pub runs : u.running ≡ true

-- From static variables with a valid table and a valid registry, a data link, memory, and threads and
-- an `init` that succeed, `umtp_alloc` with the default settings and `umtp_start` return 0 and give a
-- running stack. With more fuel than services are registered, now and later, every stack that is
-- reached from it by steps before it is stopped, of which none overruns an array, whatever messages are
-- sent, and received with at most MAX_MPU_DATA bytes, whatever time passes, whatever services are
-- registered and unregistered, and in whatever order the threads take their steps, is valid: no two
-- sessions share an identifier and none waits without one, the list of services has exactly those that
-- are registered, the unit was not freed, and the counters of its queues are in bounds.
pub umtp_start-Reach :
    (n : Errno) (fuel : ℕ) (ps : List ℕ) (statics : Umtp) (dl : SendData) (p : ℕ) (a : Answers)
    (old : Mpu)
    → IsValid statics.sessions
    → Registered statics.services ps
    → length ps < fuel
    → Positive n
    → Granted a old
    → (u : Umtp) × Started n statics dl p a u
      × ((ps' : List ℕ) (u' : Umtp) → Reach n fuel ps u ps' u' → StackIsValid ps' u')
unfolding umtp_alloc
umtp_start-Reach n fuel ps statics dl p a old sessions services enough pos g =
    let up : Umtp = record statics {
      self = p;
      sync_mode = false;
      dl = some dl;
      mpu = none;
      running = false;
    } in
    let (mpu, started, v, none_in, none_out, recv_count, packets) =
      umtp_start-link n up dl a old refl refl g.memory g.mpu_thread in
    let u : Umtp = record (with_running up mpu) { running = true } in
    (
      u,
      record {
        allocated = up;
        alloc = refl;
        start =
            started
            ∙ ap (λ r. (r.0, some r.1, r.2))
                (start_link-granted (with_running up mpu) a.init a.task_thread g.init
                  g.task_thread);
        runs = refl;
      },
      λ ps' u' path.
          (Reach-StackIsValid n fuel pos ps ps' u u' path enough
            (running-StackIsValid ps up mpu sessions services v)).1,
    )

-- The thread of the unit starts, and then a call fails with the status `ret`: `init`, or the creation
-- of the stack's task.
abbrev pub FailsLate : Answers → ℕ → Type 0
FailsLate a ret =
    (a.init ≡ some ret) ⊎ (((a.init ≡ none) ⊎ (a.init ≡ some 0)) × (a.task_thread ≡ ret))

start_link-fails :
    (u : Umtp) (a : Answers) (ret : ℕ)
    → ret ≢ 0
    → FailsLate a ret
    → (u' : Umtp) × (start_link u a.init a.task_thread ≡ (ret, u', link_calls a.init))
      × (u'.mpu ≡ u.mpu)
      × ((u'.running ≡ u.running) ⊎ (u'.running ≡ false))
unfolding start_link start_task
start_link-fails u a ret ne (inl e) = (
  u,
  ap (λ i. start_link u i a.task_thread) e
      ∙ rw (==_ne ret 0 ne) refl
      ∙ ap (λ i. (ret, u, link_calls i)) (sym e),
  refl,
  inl refl,
)
start_link-fails u a ret ne (inr (inl e, e')) = (
  record u { running = false },
  ap₂ (start_link u) e e'
      ∙ rw (==_ne ret 0 ne) refl
      ∙ ap (λ i. (ret, record u { running = false }, link_calls i)) (sym e),
  refl,
  inr refl,
)
start_link-fails u a ret ne (inr (inr e, e')) = (
  record u { running = false },
  ap₂ (start_link u) e e'
      ∙ rw (==_ne ret 0 ne) refl
      ∙ ap (λ i. (ret, record u { running = false }, link_calls i)) (sym e),
  refl,
  inr refl,
)

-- In the asynchronous mode, with a data link and memory, and with the unit's thread started: if then
-- `init` or the creation of the stack's task fails with a status that is not 0, `umtp_start` returns
-- that status, and leaves the stack with a unit that runs; its calls are at most `init`, so neither
-- `mpu_stop` nor `mpu_destroy` is among them.
pub umtp_start-fails :
    (n : Errno) (u : Umtp) (dl : SendData) (a : Answers) (old : Mpu) (ret : ℕ)
    → u.sync_mode ≡ false
    → u.dl ≡ some dl
    → a.memory ≡ some old
    → a.mpu_thread ≡ 0
    → ret ≢ 0
    → FailsLate a ret
    → (u' : Umtp) × (mpu : Mpu) × (umtp_start n (some u) a ≡ (ret, some u', link_calls a.init))
      × (u'.mpu ≡ some mpu)
      × (mpu.running ≡ true)
      × ((u'.running ≡ u.running) ⊎ (u'.running ≡ false))
umtp_start-fails n u dl a old ret async link memory thread ne fails =
    let (mpu, started, v, none_in, none_out, recv_count, packets) =
      umtp_start-link n u dl a old async link memory thread in
    let (u', failed, same, not_running) = start_link-fails (with_running u mpu) a ret ne fails in
    (
      u',
      record mpu { running = true },
      started ∙ ap (λ r. (r.0, some r.1, r.2)) failed,
      same,
      refl,
      not_running,
    )
