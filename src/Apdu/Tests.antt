-- ===== src/Apdu/Tests.antt =====
-- A requester and a responder with one service each, and the theorems at an exchange between them.
use umtp.Base.{
  ℕ, ◌≡◌, ◌==◌, if◌then◌else◌, refl, inr, true, some, none, [], ◌∷◌, arith, replicate,
  length-replicate, u8_mod, ◌<◌,
}
use umtp.Addr.{UmtpAddr}
use umtp.Errno.{Errno}
use umtp.LinkedList.{Links, init_list_head, list_add}
use umtp.LinkedList.Insert.{init_list_head-IsList, list_add-IsList}
use umtp.Session.{Sessions, blank, armed, opened, umtp_get_session}
use umtp.Session.Valid.{IsValid, one_entry-IsValid, max_pdu}
use umtp.Service.{ServiceType, ReqHandler, Services, rsp, error, service_handler}
use umtp.Service.Registry.{Registered}
use umtp.Service.Dispatch.{service_handler-some}
use umtp.Npdu.{Umtp, SendData, sent, called}
use umtp.Npdu.Handler.{npdu_handler, after_sending}
use umtp.Apdu.{ApduData, timeout_ptr, umtp_apdu_submit}
use umtp.Apdu.Wire.{frame, request_pdu, response_pdu, error_pdu}
use umtp.Apdu.Submit.{IsSync, IsRequest, apdu_submit-Fresh}
use umtp.Apdu.Handle.{
  npdu_handler-answer, npdu_handler-response_session, npdu_handler-error_session,
}
use umtp.Apdu.Short.{npdu_handler-short_request}
use umtp.Apdu.Keep.{EndsValid}
use umtp.Apdu.Total.{npdu_handler-EndsValid}
use umtp.Apdu.Exchange.{Expects, request_session, exchange-Fresh}

abbrev errno : Errno
errno = record {
  einval = 22;
  enoent = 2;
  eexist = 17;
  eproto = 71;
  enomem = 12;
  etimedout = 110;
  ebadf = 9;
}

abbrev reverse_two : ReqHandler
reverse_two src id request len = (0, 8 ∷ 9 ∷ [])

abbrev one_type : ℕ → ServiceType
one_type p = record {
  id = 2;
  req_handler = some reverse_two;
  rsp_handler = some 50;
  error_handler = some 60;
  timeout_handler = none;
}

abbrev null_links : Links
null_links = record { next = λ p. 0; prev = λ p. 0 }

abbrev services : Services
services = record {
  service_type_head = 10;
  links = list_add (init_list_head null_links 10) 20 10;
  types = one_type;
}

services-Registered : Registered services (20 ∷ [])
services-Registered = (list_add-IsList (init_list_head-IsList null_links 10) 20 refl).0

abbrev send_ok : SendData
send_ok dst bs len = 0

abbrev server : UmtpAddr
server = record { addr_len = 6; addr = 127 ∷ 0 ∷ 0 ∷ 1 ∷ 46 ∷ 8 ∷ 0 ∷ [] }

abbrev client : UmtpAddr
client = record { addr_len = 6; addr = 127 ∷ 0 ∷ 0 ∷ 2 ∷ 46 ∷ 8 ∷ 0 ∷ [] }

abbrev table : Sessions
table = record { session_id = 1; session = blank ∷ replicate 254 blank }

table-IsValid : IsValid table
table-IsValid =
    one_entry-IsValid 1 blank (omega arith)
      (omega arith, inr refl, length-replicate {A = ℕ} max_pdu 0)

abbrev stack : Umtp
stack = record {
  self = 5;
  sync_mode = true;
  dl = some send_ok;
  mpu = none;
  running = true;
  conf = record { umtp_apdu_timeout = 3000; umtp_apdu_retry = 1 };
  sessions = table;
  services = services;
  effects = [];
}

stack-IsSync : IsSync stack send_ok
stack-IsSync = record { sync = refl; link = refl }

abbrev request : ApduData
request = record { service = 2; confirmed = true; bytes = 9 ∷ 8 ∷ []; data_len = 2 }

request-IsRequest : IsRequest request
request-IsRequest = record {
  is_confirmed = refl;
  whole = refl;
  fits = omega arith;
  byte = omega arith;
}

stack-Expects : Expects stack 2 2 20 50 (20 ∷ [])
stack-Expects = record {
  registered = services-Registered;
  enough = omega arith;
  found = refl;
  handler = refl;
}

served : service_handler errno 2 services client 2 (9 ∷ 8 ∷ []) 2 ≡ some (0, 8 ∷ 9 ∷ [])
served =
    service_handler-some errno services (20 ∷ []) 2 20 reverse_two client 2 (9 ∷ 8 ∷ []) 2
      services-Registered (omega arith) refl refl (omega arith)

apdu_submit-Fresh_example :
    (id : ℕ) × (u' : Umtp) × (0 < id)
    × (id < u8_mod)
    × (let pdu = request_pdu 2 id (9 ∷ 8 ∷ []) in
        (umtp_apdu_submit errno [] stack server (some request) ≡ some (0, u'))
        × (u'.effects ≡ sent server (frame pdu) 7 ∷ [])
        × (umtp_get_session table id ≡ none)
        × (umtp_get_session u'.sessions id
            ≡ some
                (armed stack.conf (some timeout_ptr) 5 server pdu 6 (opened stack.conf id blank)))
        × IsValid u'.sessions)
apdu_submit-Fresh_example =
    apdu_submit-Fresh errno [] stack send_ok server request blank stack-IsSync request-IsRequest
      table-IsValid refl

npdu_handler-answer_example :
    npdu_handler errno 2 stack client (frame (request_pdu 2 7 (9 ∷ 8 ∷ []))) 7
    ≡ some (0, after_sending stack client (response_pdu 2 7 (8 ∷ 9 ∷ [])))
npdu_handler-answer_example =
    npdu_handler-answer errno 2 stack send_ok client 2 7 (9 ∷ 8 ∷ []) (0, 8 ∷ 9 ∷ []) stack-IsSync
      (omega arith) served (omega arith)

npdu_handler-response_session_example :
    (u' : Umtp) × (npdu_handler errno 2 stack server (frame (response_pdu 2 7 (8 ∷ 9 ∷ []))) 7
      ≡ some (0, u'))
    × (u'.effects ≡ called (rsp 50 server (umtp_get_session table 7) (8 ∷ 9 ∷ []) 2) ∷ [])
    × ((j : ℕ)
        → umtp_get_session u'.sessions j ≡ (if j == 7 then none else umtp_get_session table j))
    × IsValid u'.sessions
npdu_handler-response_session_example =
    npdu_handler-response_session errno 2 stack server 2 7 (8 ∷ 9 ∷ []) (20 ∷ []) 20 50
      table-IsValid services-Registered (omega arith) refl refl (omega arith) (omega arith)

npdu_handler-error_session_example :
    (u' : Umtp) × (npdu_handler errno 2 stack server (frame (error_pdu 2 7 254)) 6 ≡ some (0, u'))
    × (u'.effects ≡ called (error 60 server 254 (umtp_get_session table 7)) ∷ [])
    × ((j : ℕ)
        → umtp_get_session u'.sessions j ≡ (if j == 7 then none else umtp_get_session table j))
    × IsValid u'.sessions
npdu_handler-error_session_example =
    npdu_handler-error_session errno 2 stack server 2 7 254 (20 ∷ []) 20 60 table-IsValid
      services-Registered (omega arith) refl refl

-- Three bytes; the service and the session are what the array held.
npdu_handler-short_request_example :
    npdu_handler errno 2 stack client (1 ∷ 1 ∷ 0 ∷ 2 ∷ 7 ∷ 3 ∷ []) 3
    ≡ some (0, after_sending stack client (response_pdu 2 7 (8 ∷ 9 ∷ [])))
npdu_handler-short_request_example =
    npdu_handler-short_request errno 2 stack send_ok client 2 7 (3 ∷ []) 3 20 (20 ∷ []) reverse_two
      (0, 8 ∷ 9 ∷ []) stack-IsSync services-Registered (omega arith) refl refl (omega arith)
      (omega arith) refl (omega arith)

exchange-Fresh_example :
    (id : ℕ) × (c' : Umtp) × (c'' : Umtp) × (r' : Umtp) × (let sent_frame =
        frame (request_pdu 2 id (9 ∷ 8 ∷ [])) in
      let answer = frame (response_pdu 2 id (8 ∷ 9 ∷ [])) in
      (umtp_apdu_submit errno [] stack server (some request) ≡ some (0, c'))
      × (npdu_handler errno 2 stack client sent_frame 7 ≡ some (0, r'))
      × (r'.effects ≡ sent client answer 7 ∷ [])
      × (npdu_handler errno 2 c' server answer 7 ≡ some (0, c''))
      × (c''.effects
          ≡ sent server sent_frame 7
            ∷ called (
                rsp 50 server
                  (some (request_session stack blank server id (request_pdu 2 id (9 ∷ 8 ∷ []))))
                  (8 ∷ 9 ∷ [])
                  2)
            ∷ [])
      × ((j : ℕ) → umtp_get_session c''.sessions j ≡ umtp_get_session table j))
exchange-Fresh_example =
    exchange-Fresh errno [] 2 2 stack stack send_ok send_ok client server request blank (8 ∷ 9 ∷ [])
      20 50 (20 ∷ []) stack-IsSync stack-IsSync request-IsRequest table-IsValid refl stack-Expects
      served (omega arith) (omega arith)

-- A message of an unknown type.
npdu_handler-EndsValid_example :
    EndsValid (20 ∷ []) (npdu_handler errno 2 stack client (1 ∷ 9 ∷ 1 ∷ []) 3)
npdu_handler-EndsValid_example =
    npdu_handler-EndsValid errno 2 (20 ∷ []) stack
      (record { sessions = table-IsValid; services = services-Registered; unit = tt }) (omega arith)
      client (1 ∷ 9 ∷ 1 ∷ []) 3
