-- ===== src/Stack/Tests.antt =====
-- The theorems at a stack without services, whose data link takes every frame.
use umtp.Base.{
  ℕ, ◌^◌, ◌≡◌, ◌⊎◌, inl, inr, refl, arith, true, false, some, none, List, [], ◌∷◌, ◌++◌, replicate,
  length, length-replicate,
}
use umtp.Addr.{UmtpAddr}
use umtp.Errno.{Errno, Positive}
use umtp.LinkedList.{Links, init_list_head}
use umtp.LinkedList.Insert.{init_list_head-IsList}
use umtp.Session.{initial}
use umtp.Session.Valid.{initial-IsValid}
use umtp.Service.{Services}
use umtp.Service.Registry.{Registered}
use native.Mathlib.Nat.{dvd-mul_right}
use umtp.RingBuf.{RingBuffer}
use umtp.RingBuf.Valid
use umtp.RingBuf.Slots.{slots, init-slots}
use umtp.Mpu.{MpuPacket, Mpu, recv, send}
use umtp.Mpu.Queue.{MpuIsValid}
use umtp.Mpu.Drain.{queued}
use umtp.Npdu.{Umtp, SendData}
use umtp.Stack.{Answers, umtp_start, umtp_stop, umtp_task, Task, receive, drain, process_time}
use umtp.Stack.Async.{drain-receive}
use umtp.Stack.Carry.{Message, submit_all, Running}
use umtp.Stack.Modes.{sync_of, drain-submit_all}
use umtp.Stack.Safety.{Returns, process_time-Returns}
use umtp.Stack.Steps.{Reach}
use umtp.Stack.Start.{Started, umtp_start-Reach, umtp_start-fails, link_calls}
use umtp.Stack.Stop.{quiet, broken, umtp_stop-umtp_task}
use umtp.Apdu.Keep.{StackIsValid}

abbrev pub errno : Errno
errno = record {
  einval = 22;
  enoent = 2;
  eexist = 17;
  eproto = 71;
  enomem = 12;
  etimedout = 110;
  ebadf = 9;
}

errno-Positive : Positive errno
errno-Positive = record {
  einval_pos = omega arith;
  enoent_pos = omega arith;
  eexist_pos = omega arith;
  eproto_pos = omega arith;
  enomem_pos = omega arith;
  etimedout_pos = omega arith;
  ebadf_pos = omega arith;
}

abbrev pub peer : UmtpAddr
peer = record { addr_len = 6; addr = 127 ∷ 0 ∷ 0 ∷ 1 ∷ 46 ∷ 8 ∷ 0 ∷ [] }

abbrev blank_packet : MpuPacket
blank_packet = record {
  length = 0;
  buffer = replicate 2000 0;
  addr = peer;
  data_ptr = 0;
  overrun = false;
}

abbrev old_ring : RingBuffer
old_ring = record { buffer = 0; element_size = 0; element_count = 0; head = 0; tail = 0 }

abbrev old_unit : Mpu
old_unit = record {
  recv_queue = old_ring;
  send_queue = old_ring;
  packets = λ p. blank_packet;
  running = false;
  freed = false;
}

-- Two empty queues of two packets of 20 bytes.
abbrev ring : ℕ → RingBuffer
ring buffer = record { buffer = buffer; element_size = 20; element_count = 2; head = 0; tail = 0 }

abbrev pub unit : Mpu
unit = record {
  recv_queue = ring 100;
  send_queue = ring 200;
  packets = λ p. blank_packet;
  running = true;
  freed = false;
}

ring-IsValid : (buffer : ℕ) → Valid.IsValid (ring buffer)
ring-IsValid buffer = record {
  positive = omega arith;
  divides = dvd-mul_right 2 (2 ^ 31);
  word = omega arith;
  fits = omega arith;
  head_word = omega arith;
  tail_word = omega arith;
  within = omega arith;
}

unit-IsValid : MpuIsValid unit
unit-IsValid = record {
  recv = ring-IsValid 100;
  send = ring-IsValid 200;
  recv_size = omega arith;
  send_size = omega arith;
  apart = inl (omega arith);
  live = refl;
}

whole_buffer : length blank_packet.buffer ≡ 2000
whole_buffer = length-replicate {A = ℕ} 2000 0

pub ring-empty : (buffer : ℕ) → slots (ring buffer) unit.packets ≡ []
ring-empty buffer = (init-slots old_ring buffer 20 2 unit.packets).1

pub unit-Running : Running unit
unit-Running = record { valid = unit-IsValid; runs = refl; wide = λ p. omega (arith, whole_buffer) }

abbrev pub null_links : Links
null_links = record { next = λ p. 0; prev = λ p. 0 }

abbrev no_services : Services
no_services = record {
  service_type_head = 10;
  links = init_list_head null_links 10;
  types = λ p. record {
    id = 0;
    req_handler = none;
    rsp_handler = none;
    error_handler = none;
    timeout_handler = none;
  };
}

no_services-Registered : Registered no_services []
no_services-Registered = init_list_head-IsList null_links 10

abbrev pub send_ok : SendData
send_ok dst bs len = 0

abbrev pub stack : Umtp
stack = record {
  self = 5;
  sync_mode = false;
  dl = some send_ok;
  mpu = some unit;
  running = true;
  conf = record { umtp_apdu_timeout = 3000; umtp_apdu_retry = 1 };
  sessions = initial;
  services = no_services;
  effects = [];
}

stack-StackIsValid : StackIsValid [] stack
stack-StackIsValid = record {
  sessions = initial-IsValid;
  services = no_services-Registered;
  unit = unit-IsValid;
}

drain-receive_example :
    (u' : Umtp) × (receive errno 1 stack peer (2 ∷ 0 ∷ []) 2 ≡ some u')
    × ((rounds fuel' : ℕ) → drain errno rounds fuel' u' ≡ none)
drain-receive_example =
    drain-receive errno 1 stack unit peer (2 ∷ 0 ∷ []) 2 errno-Positive refl refl unit-IsValid refl
      (ring-empty 100) (omega (arith, whole_buffer)) (omega arith) (omega arith) (omega arith)

abbrev messages : List Message
messages = (peer, 7 ∷ []) ∷ (peer, 8 ∷ 9 ∷ []) ∷ []

drain-submit_all_example :
    (mpu' : Mpu) × ((submit_all errno stack messages).0
      ≡ (submit_all errno (sync_of stack) messages).0)
    × (drain errno 3 1 (submit_all errno stack messages).1
        ≡ some (record (submit_all errno (sync_of stack) messages).1 {
          sync_mode = false;
          mpu = some mpu';
        }))
    × (queued recv mpu' ≡ [])
    × (queued send mpu' ≡ [])
drain-submit_all_example =
    drain-submit_all errno 1 stack unit send_ok messages refl refl refl unit-Running
      (ring-empty 100) (ring-empty 200) (omega arith)
      ((omega arith, omega arith, refl), ((omega arith, omega arith, refl), tt))

process_time-Returns_example : Returns [] (process_time errno 1 stack 1000)
process_time-Returns_example =
    process_time-Returns errno 1 [] (omega arith) stack 1000 stack-StackIsValid

abbrev granted : Answers
granted = record {
  memory = some old_unit;
  recv_buffer = 1000;
  mpu_thread = 0;
  init = some 0;
  task_thread = 0;
}

umtp_start-Reach_example :
    (u : Umtp) × Started errno stack send_ok 5 granted u
    × ((ps' : List ℕ) (u' : Umtp) → Reach errno 5 [] u ps' u' → StackIsValid ps' u')
umtp_start-Reach_example =
    umtp_start-Reach errno 5 [] stack send_ok 5 granted old_unit initial-IsValid
      no_services-Registered (omega arith) errno-Positive
      (record { memory = refl; mpu_thread = refl; init = inr refl; task_thread = refl })

-- `init` fails with the status 19.
abbrev failing : Answers
failing = record granted { init = some 19 }

umtp_start-fails_example :
    (u' : Umtp) × (mpu : Mpu) × (umtp_start errno (some stack) failing
      ≡ (19, some u', link_calls (some 19)))
    × (u'.mpu ≡ some mpu)
    × (mpu.running ≡ true)
    × ((u'.running ≡ true) ⊎ (u'.running ≡ false))
umtp_start-fails_example =
    umtp_start-fails errno stack send_ok failing old_unit 19 refl refl refl refl (omega arith)
      (inl refl)

umtp_stop-umtp_task_example :
    (u' : Umtp) × ((umtp_stop true (some stack)).0 ≡ some u')
    × (let t : Task = record { stack = u'; last_seconds = 100 } in
        let waits = replicate 2 (quiet errno 100 peer) in
        (umtp_task errno 1 t waits ≡ some u')
        × (u'.running ≡ true)
        × (umtp_task errno 1 t (waits ++ broken errno 100 22 peer ∷ [])
            ≡ some (record u' { running = false })))
umtp_stop-umtp_task_example =
    umtp_stop-umtp_task errno true 1 100 2 22 peer stack [] errno-Positive (omega arith)
      (omega arith)
