-- ===== src/Examples/Launch.antt =====
-- The start of an example, where the system grants what it asks for.
use umtp.Base.{
  ℕ, ◌<◌, ◌≤◌, ◌≡◌, refl, ap, ◌∙◌, Bool, true, false, Option, none, some, List, [], ◌∷◌, ◌>>=◌,
  length, ◌==◌, if◌then◌else◌,
}
use umtp.Addr.{UmtpAddr}
use umtp.Errno.{Errno}
use umtp.LinkedList.Chain.{mem}
use umtp.Service.{ReqHandler, Services}
use umtp.Service.Registry.{Registered, find, service_type_register-new}
use umtp.Mpu.{Mpu, recv, send, max_mpu_data}
use umtp.Mpu.Drain.{queued}
use umtp.Npdu.{Umtp, SendData}
use umtp.Datalink.{UmtpDl}
use umtp.Datalink.Socket.{udp_send_data, umtp_dludp_create, eth0}
use umtp.Datalink.Socket.Open.{
  SendsAll, Opens, dludp_init-opened, udp_send_data-zero, created, umtp_dludp_create-true,
}
use umtp.Stack.{umtp_start, umtp_alloc}
use umtp.Stack.Carry.{Running}
use umtp.Stack.Grant.{allocated, umtp_alloc-some, umtp_start-sync, umtp_start-async}
use umtp.Examples.{Host, any_ip, send_of, answers_of, launch_stack, launch_link, launch}

-- The memory and the threads are there, the socket is set up, and it sends every byte; the arrays of
-- the unit's packets have MAX_MPU_DATA bytes.
pub record Granted (h : Host) : Type 0 where
  pub link_memory : h.link_memory ≡ true
  pub opens : Opens h.link
  pub sends : SendsAll h.sendto
  pub self : ℕ
  pub stack_memory : h.stack_memory ≡ some self
  pub old : Mpu
  pub unit_memory : h.unit_memory ≡ some old
  pub wide : (p : ℕ) → max_mpu_data ≤ length (old.packets p).buffer
  pub mpu_thread : h.mpu_thread ≡ 0
  pub task_thread : h.task_thread ≡ 0

-- The structure at `service` is not registered yet, has a request handler, and no registered one
-- has its identifier.
pub record Registrable (sv : Services) (fuel service : ℕ) (handler : ReqHandler) (ps : List ℕ)
    : Type 0 where
  pub registered : Registered sv ps
  pub enough : length ps < fuel
  pub new : mem service (sv.service_type_head ∷ ps) ≡ false
  pub has_handler : (sv.types service).req_handler ≡ some handler
  pub unused : find sv.types (sv.types service).id ps ≡ none

-- A data link that takes every frame.
abbrev pub Takes : SendData → Type 0
Takes out = (dst : UmtpAddr) (pdu : List ℕ) (len : ℕ) → out dst pdu len ≡ 0

module _ (n : Errno) (fuel : ℕ) (h : Host) (statics : Umtp) (port service : ℕ)
    (handler : ReqHandler) (ps : List ℕ) (g : Granted h)
    (r : Registrable statics.services fuel service handler ps) where
  abbrev link : UmtpDl
  link = created (some eth0) (some any_ip) port

  -- What is known when `umtp_start` is called.
  record Ready (sync_mode : Bool) (out : SendData) (sv : Services) : Type 0 where
    takes : Takes out
    init : (answers_of n h link).init ≡ some 0
    registered : Registered sv (service ∷ ps)
    types : sv.types ≡ statics.services.types
    starts : launch n fuel h statics sync_mode port service ≡ (
        let started =
          umtp_start n (some (allocated statics g.self sync_mode out sv)) (answers_of n h link) in
        some (if started.0 == 0 then started.1 else none))

  launch-Ready : (sync_mode : Bool) → (out : SendData) × (sv : Services) × Ready sync_mode out sv
  unfolding launch launch_link launch_stack
  launch-Ready sync_mode =
      let (dl', opened, port_set, open_socket, plain) = dludp_init-opened n h.link link g.opens in
      let out : SendData = udp_send_data n h.sendto dl' in
      let (sv, registers, registered, types) =
        service_type_register-new n statics.services ps fuel service handler r.registered r.enough
          r.new r.has_handler r.unused in
      let finish : ℕ × Services → Option (Option Umtp) = λ r.
        let started =
          umtp_start n (some (allocated statics g.self sync_mode out r.1)) (answers_of n h link) in
        some (if r.0 == 0 then (if started.0 == 0 then started.1 else none) else none) in
      (
        out,
        sv,
        record {
          takes = λ dst pdu len.
              udp_send_data-zero n h.sendto g.sends dl' h.link.socket dst pdu len open_socket;
          init = ap (λ r. some r.0) opened;
          registered = registered;
          types = types;
          starts =
              ap
                (λ m.
                  launch_link n fuel h statics sync_mode service
                    (umtp_dludp_create m (some eth0) (some any_ip) port))
                g.link_memory
              ∙ ap (launch_link n fuel h statics sync_mode service)
                  (umtp_dludp_create-true (some eth0) (some any_ip) port)
              ∙ ap
                  (λ dl.
                    launch_stack n fuel h service link (
                      umtp_alloc statics (some sync_mode) (send_of n h.sendto dl.1) h.stack_memory))
                  opened
              ∙ ap
                  (λ m.
                    launch_stack n fuel h service link
                      (umtp_alloc statics (some sync_mode) (some out) m))
                  g.stack_memory
              ∙ ap (launch_stack n fuel h service link)
                  (umtp_alloc-some statics sync_mode out g.self)
              ∙ ap (λ r. r >>= finish) registers;
        },
      )

  -- In the synchronous mode `launch` ends with a running stack that has the service.
  pub launch-sync :
      (out : SendData) × (sv : Services) × Takes out
      × Registered sv (service ∷ ps)
      × (sv.types ≡ statics.services.types)
      × (launch n fuel h statics true port service
          ≡ some (some (record (allocated statics g.self true out sv) { running = true })))
  launch-sync =
      let (out, sv, k) = launch-Ready true in
      (
        out,
        sv,
        k.takes,
        k.registered,
        k.types,
        k.starts
            ∙ ap (λ s. some (if s.0 == 0 then s.1 else none))
                (umtp_start-sync n (allocated statics g.self true out sv) out (answers_of n h link)
                  refl refl k.init g.task_thread),
      )

  -- In the asynchronous mode the stack also has a running unit with empty queues.
  pub launch-async :
      (out : SendData) × (sv : Services) × (mpu : Mpu) × Takes out
      × Registered sv (service ∷ ps)
      × (sv.types ≡ statics.services.types)
      × (launch n fuel h statics false port service
          ≡ some (
              some (record (allocated statics g.self false out sv) {
                running = true;
                mpu = some mpu;
              })))
      × Running mpu
      × (queued recv mpu ≡ [])
      × (queued send mpu ≡ [])
      × (mpu.recv_queue.element_count ≡ 16)
  launch-async =
      let (out, sv, k) = launch-Ready false in
      let (mpu, started, run, none_in, none_out, room) =
        umtp_start-async n (allocated statics g.self false out sv) out (answers_of n h link) g.old
          refl refl g.unit_memory g.mpu_thread k.init g.task_thread g.wide in
      (
        out,
        sv,
        mpu,
        k.takes,
        k.registered,
        k.types,
        k.starts ∙ ap (λ s. some (if s.0 == 0 then s.1 else none)) started,
        run,
        none_in,
        none_out,
        room,
      )
