-- ===== src/Examples.antt =====
-- examples/simple_server.c and examples/simple_client.c: a program that serves one service, and one
-- that sends it ten requests and waits for a response. What the operating system answers is a
-- record. `none` stands for a loop or a wait that has not ended. The exit status -1 is `none` or
-- `failed`.
pub mod Launch
pub mod Server
pub mod Client
pub mod Wait
pub mod Finish
mod Tests
use umtp.Base.{
  ℕ, zero, suc, ◌-◌, ◌^◌, Bool, true, false, not, Option, none, some, List, [], ◌∷◌, ltb, ◌==◌,
  if◌then◌else◌, ◌>>=◌, replicate,
}
use umtp.Addr.{UmtpAddr}
use umtp.Errno.{Errno}
use umtp.Session.{Sessions}
use umtp.Service.{ReqHandler, ServiceType, Call, rsp, error, timeout, service_type_register}
use umtp.Mpu.{Mpu}
use umtp.Npdu.{Umtp, SendData, Effect, sent, called, overrun}
use umtp.Datalink.{UmtpDl, dlumtp_encode_address}
use umtp.Datalink.Socket.{Sendto, InitAnswers, udp_send_data, dludp_init, umtp_dludp_create, eth0}
use umtp.Apdu.{ApduData}
use umtp.Stack.{Answers, umtp_alloc, umtp_start, umtp_send_message}

-- The memory for the data link, for the stack and for its unit, the answers to `dludp_init`, the
-- sends, and the results of the two `pthread_create`.
pub record Host : Type 0 where
  pub link_memory : Bool
  pub link : InitAnswers
  pub sendto : Sendto
  pub stack_memory : Option ℕ
  pub unit_memory : Option Mpu
  pub recv_buffer : ℕ
  pub mpu_thread : ℕ
  pub task_thread : ℕ

-- The pointer to "0.0.0.0".
abbrev pub any_ip : ℕ
any_ip = 1

-- The data link as it sends, after `dludp_init`; nothing is sent before it.
abbrev pub send_of : Errno → Sendto → Option UmtpDl → Option SendData
send_of n sendto none = none
send_of n sendto (some dl) = some (udp_send_data n sendto dl)

abbrev pub answers_of : Errno → Host → UmtpDl → Answers
answers_of n h dl = record {
  memory = h.unit_memory;
  recv_buffer = h.recv_buffer;
  mpu_thread = h.mpu_thread;
  init = some (dludp_init n h.link (some dl)).0;
  task_thread = h.task_thread;
}

-- The registration of the structure at `service`, and the start.
pub launch_stack : Errno → ℕ → Host → (service : ℕ) → UmtpDl → Option Umtp → Option (Option Umtp)
launch_stack n fuel h service dl none = some none
launch_stack n fuel h service dl (some u) =
    service_type_register n fuel u.services (some service) >>= λ r.
    let started = umtp_start n (some (record u { services = r.1 })) (answers_of n h dl) in
    some (if r.0 == 0 then (if started.0 == 0 then started.1 else none) else none)

pub launch_link :
    Errno
    → ℕ
    → Host
    → Umtp
    → (sync_mode : Bool) → (service : ℕ) → Option UmtpDl
    → Option (Option Umtp)
unfolding launch_stack
launch_link n fuel h statics sync_mode service none = some none
launch_link n fuel h statics sync_mode service (some dl) = launch_stack n fuel h service dl (
    umtp_alloc statics (some sync_mode) (send_of n h.sendto (dludp_init n h.link (some dl)).1)
      h.stack_memory)

-- What both programs do first: the running stack, or `none` for the exit with -1.
pub launch :
    Errno → ℕ → Host → Umtp → (sync_mode : Bool) → (port service : ℕ) → Option (Option Umtp)
unfolding launch_link
launch n fuel h statics sync_mode port service =
    launch_link n fuel h statics sync_mode service
      (umtp_dludp_create h.link_memory (some eth0) (some any_ip) port)

-- "Nihao China", with the zero behind it.
abbrev pub greeting : List ℕ
greeting = 78 ∷ 105 ∷ 104 ∷ 97 ∷ 111 ∷ 32 ∷ 67 ∷ 104 ∷ 105 ∷ 110 ∷ 97 ∷ 0 ∷ []

abbrev pub serve : ReqHandler
serve src service_id pdu len = (0, greeting)

abbrev pub simple_server : ServiceType
simple_server = record {
  id = 1;
  req_handler = some serve;
  rsp_handler = none;
  error_handler = none;
  timeout_handler = none;
}

-- The port -1.
abbrev pub no_port : ℕ
no_port = 2 ^ 32 - 1

-- The endless loop: for each second what the threads of the stack do. The result is the stack after
-- the last one.
abbrev pub serve_on : List (Umtp → Umtp) → Umtp → Umtp
serve_on [] u = u
serve_on (others ∷ sleeps) u = serve_on sleeps (others u)

-- `main` of simple_server.c.
pub server_main :
    Errno → ℕ → Host → Umtp → (service : ℕ) → List (Umtp → Umtp) → Option (Option Umtp)
unfolding launch
server_main n fuel h statics service sleeps =
    launch n fuel h statics false no_port service >>= λ launched.
    some (launched >>= λ u. some (serve_on sleeps u))

-- "hello world", with the zero behind it.
abbrev pub hello : List ℕ
hello = 104 ∷ 101 ∷ 108 ∷ 108 ∷ 111 ∷ 32 ∷ 119 ∷ 111 ∷ 114 ∷ 108 ∷ 100 ∷ 0 ∷ []

-- The addresses of the two handlers that return nothing.
abbrev pub client_rsp : ℕ
client_rsp = 101

abbrev pub client_timeout : ℕ
client_timeout = 102

abbrev pub quiet_handler : ReqHandler
quiet_handler src service_id pdu len = (0, [])

abbrev pub simple_client : ServiceType
simple_client = record {
  id = 1;
  req_handler = some quiet_handler;
  rsp_handler = some client_rsp;
  error_handler = none;
  timeout_handler = some client_timeout;
}

-- The bytes of the array behind the text are left out.
abbrev pub send_data : ApduData
send_data = record { service = 1; confirmed = true; bytes = hello; data_len = 12 }

abbrev or_keep : UmtpAddr → Option UmtpAddr → UmtpAddr
or_keep addr none = addr
or_keep addr (some addr') = addr'

-- `s_addr` is what `inet_addr` makes of "127.0.0.1".
pub server_addr : (s_addr : ℕ) → UmtpAddr
server_addr s_addr =
    let dst : UmtpAddr = record { addr_len = 6; addr = replicate 7 0 } in
    or_keep dst (dlumtp_encode_address (some dst) (some s_addr) 11784)

-- The loop over `n`; the lists tell what the other threads do before the submission with `n` left,
-- and while it waits for a session. The flag is false if a submission fails.
pub send_loop :
    Errno
    → (ℕ → Umtp → Umtp)
    → (ℕ → List (Sessions → Sessions))
    → UmtpAddr
    → ℕ
    → Umtp
    → Option (Bool × Umtp)
send_loop e others sleeps dst zero u = some (true, u)
send_loop e others sleeps dst (suc n) u =
    umtp_send_message e (sleeps n) (others n u) dst (some send_data) >>= λ r.
    let rest = send_loop e others sleeps dst n r.1 in
    if not (ltb r.0 (2 ^ 31)) then some (false, r.1) else rest

-- Whether a call is one of the client's response handler.
abbrev pub is_rsp : Call → Bool
is_rsp (rsp f src session pdu len) = f == client_rsp
is_rsp (error f src status session) = false
is_rsp (timeout f dst service_id pdu len) = false

-- The static `wait`, which the response handler sets to 0.
abbrev pub wait_of : List Effect → Bool
wait_of [] = true
wait_of (sent dst frame len ∷ es) = wait_of es
wait_of (overrun size len ∷ es) = wait_of es
wait_of (called c ∷ es) = if is_rsp c then false else wait_of es

-- The loop over `wait`, with what the other threads do in each second.
pub wait_loop : List (Umtp → Umtp) → Umtp → Option Umtp
wait_loop [] u = if wait_of u.effects then none else some u
wait_loop (others ∷ sleeps) u =
    let later = wait_loop sleeps (others u) in if wait_of u.effects then later else some u

pub data Exit : Type 0 where
  failed : Exit
  returned : Umtp → Exit

-- From the first submission on.
pub client_requests :
    Errno
    → (ℕ → Umtp → Umtp)
    → (ℕ → List (Sessions → Sessions))
    → List (Umtp → Umtp)
    → UmtpAddr
    → Option Umtp
    → Option Exit
unfolding send_loop wait_loop
client_requests e others sleeps waits dst none = some failed
client_requests e others sleeps waits dst (some u) = send_loop e others sleeps dst 10 u >>= λ r.
    let waited = wait_loop waits r.1 >>= λ u'. some (returned u') in
    if r.0 then waited else some failed

-- `main` of simple_client.c.
pub client_main :
    Errno
    → ℕ
    → Host
    → Umtp
    → (service s_addr : ℕ) → (ℕ → Umtp → Umtp)
    → (ℕ → List (Sessions → Sessions))
    → List (Umtp → Umtp)
    → Option Exit
unfolding launch server_addr client_requests
client_main e fuel h statics service s_addr others sleeps waits =
    launch e fuel h statics true 10000 service >>= λ launched.
    client_requests e others sleeps waits (server_addr s_addr) launched
