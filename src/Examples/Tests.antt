-- ===== src/Examples/Tests.antt =====
-- The two programs on a system that grants what they ask for.
use umtp.Base.{
  ℕ, ◌≡◌, refl, arith, true, false, some, none, List, [], ◌∷◌, ◌++◌, length, replicate,
  length-replicate, get_elem?, ◌==◌, if◌then◌else◌,
}
use umtp.Addr.{UmtpAddr}
use umtp.Errno.{Errno}
use umtp.LinkedList.{Links, init_list_head}
use umtp.LinkedList.Insert.{init_list_head-IsList}
use umtp.Session.{Session, Sessions, initial, umtp_get_session}
use umtp.Session.Count.{used-initial}
use umtp.Session.Valid.{initial-IsValid}
use umtp.Service.{ServiceType, ReqHandler, Services, rsp}
use umtp.Datalink.Socket.{Sendto, Interface, InitAnswers}
use umtp.RingBuf.{RingBuffer}
use umtp.Mpu.{MpuPacket, Mpu}
use umtp.Npdu.{Umtp, called}
use umtp.Stack.Modes.{sent_all}
use umtp.Stack.Requests.{answers}
use umtp.Examples.{
  Host, returned, simple_server, simple_client, serve, quiet_handler, client_rsp, server_addr,
  server_main, client_main, greeting,
}
use umtp.Examples.Launch.{Granted, Registrable}
use umtp.Examples.Server.{Greet, serving, or_same, all_greeted, server_main-greets}
use umtp.Examples.Client.{Unused, Waiting, hellos}
use umtp.Examples.Wait.{idle, response_arrives}
use umtp.Examples.Finish.{client_main-returns}

abbrev errno : Errno
errno = record {
  einval = 22;
  enoent = 2;
  eexist = 17;
  eproto = 71;
  enomem = 12;
  etimedout = 110;
  ebadf = 9;
}

abbrev peer : UmtpAddr
peer = record { addr_len = 6; addr = 127 ∷ 0 ∷ 0 ∷ 1 ∷ 46 ∷ 8 ∷ 0 ∷ [] }

abbrev send_all : Sendto
send_all s_addr sin_port bs = (length bs, 0)

abbrev interface : Interface
interface = record { fd = 4; ret = 0; s_addr = 255 }

abbrev link_answers : InitAnswers
link_answers = record {
  inet_aton = λ ip. some 0;
  address = interface;
  netmask = interface;
  old_netmask = 0;
  socket = 3;
  setsockopt = 0;
  bind = 0;
  errno = 0;
}

abbrev blank_packet : MpuPacket
blank_packet = record {
  length = 0;
  buffer = replicate 2000 0;
  addr = peer;
  data_ptr = 0;
  overrun = false;
}

abbrev old_ring : RingBuffer
old_ring = record { buffer = 0; element_size = 0; element_count = 0; head = 0; tail = 0 }

abbrev old_unit : Mpu
old_unit = record {
  recv_queue = old_ring;
  send_queue = old_ring;
  packets = λ p. blank_packet;
  running = false;
  freed = false;
}

abbrev host : Host
host = record {
  link_memory = true;
  link = link_answers;
  sendto = send_all;
  stack_memory = some 5;
  unit_memory = some old_unit;
  recv_buffer = 1000;
  mpu_thread = 0;
  task_thread = 0;
}

whole_buffer : length blank_packet.buffer ≡ 2000
whole_buffer = length-replicate {A = ℕ} 2000 0

host-Granted : Granted host
host-Granted = record {
  link_memory = refl;
  opens = record { created = refl; set_up = refl; bound = refl };
  sends = λ s_addr sin_port bs. refl;
  self = 5;
  stack_memory = refl;
  old = old_unit;
  unit_memory = refl;
  wide = λ p. omega (arith, whole_buffer);
  mpu_thread = refl;
  task_thread = refl;
}

abbrev null_links : Links
null_links = record { next = λ p. 0; prev = λ p. 0 }

abbrev services_with : ServiceType → Services
services_with t = record {
  service_type_head = 10;
  links = init_list_head null_links 10;
  types = λ p. t;
}

services-Registrable :
    (t : ServiceType) (handler : ReqHandler)
    → t.req_handler ≡ some handler
    → Registrable (services_with t) 1 20 handler []
services-Registrable t handler e = record {
  registered = init_list_head-IsList null_links 10;
  enough = omega arith;
  new = refl;
  has_handler = e;
  unused = refl;
}

abbrev statics : ServiceType → Umtp
statics t = record {
  self = 0;
  sync_mode = false;
  dl = none;
  mpu = none;
  running = false;
  conf = record { umtp_apdu_timeout = 3000; umtp_apdu_retry = 1 };
  sessions = initial;
  services = services_with t;
  effects = [];
}

abbrev two_requests : List Greet
two_requests =
    record { src = peer; session_id = 7; bytes = 1 ∷ 2 ∷ [] }
    ∷ record { src = peer; session_id = 8; bytes = 3 ∷ [] }
    ∷ []

server_main-greets_example :
    (u : Umtp) × (u' : Umtp) × (server_main errno 1 host (statics simple_server) 20 []
      ≡ some (some u))
    × (serving errno 2 two_requests u ≡ some u')
    × (server_main errno 1 host
          (statics simple_server)
          20
          ((λ u. or_same u (serving errno 2 two_requests u)) ∷ [])
        ≡ some (some u'))
    × (u'.effects ≡ sent_all (answers (all_greeted two_requests)))
server_main-greets_example =
    server_main-greets errno 1 host (statics simple_server) 20 [] two_requests host-Granted
      (services-Registrable simple_server serve refl) refl
      ((omega arith, omega arith), ((omega arith, omega arith), tt)) (omega arith)

client_main-returns_example :
    (ids : List ℕ) × (id : ℕ) × (st : Sessions) × (session : Session) × (u' : Umtp) × (length ids
      ≡ 10)
    × (get_elem? ids 3 ≡ some id)
    × Unused initial ids
    × Waiting st ids
    × (let run =
          client_main errno 1 host (statics simple_client) 20 16777343 (λ k u. u) (λ k. []) in
        (run (idle 5) ≡ none)
        × (run (idle 5 ++ response_arrives errno 2 peer id greeting ∷ []) ≡ some (returned u')))
    × (umtp_get_session st id ≡ some session)
    × (u'.effects
        ≡ hellos (server_addr 16777343) ids
          ++ called (rsp client_rsp peer (some session) greeting 12) ∷ [])
    × ((i : ℕ) → umtp_get_session u'.sessions i ≡ (if i == id then none else umtp_get_session st i))
client_main-returns_example =
    client_main-returns errno 1 host (statics simple_client) 20 16777343 [] (λ k. []) 3 5 peer
      greeting host-Granted (services-Registrable simple_client quiet_handler refl) refl
      initial-IsValid (omega (arith, used-initial)) refl (omega arith) (omega arith) (omega arith)
