-- ===== src/Apdu/Exchange.antt =====
-- A whole confirmed exchange between two stacks: the request, its answer, and the end of the session.
use umtp.Base.{
  ℕ, ◌+◌, ◌<◌, ◌≡◌, ◌≢◌, refl, ap, ◌∙◌, true, none, some, List, [], ◌∷◌, ◌++◌, arith, length, ◌==◌,
  if◌then◌else◌, ◌≤◌,
}
use umtp.Addr.{UmtpAddr}
use umtp.Errno.{Errno}
use umtp.Session.{Session, Sessions, armed, opened, umtp_get_session}
use umtp.Session.Table.{find, has}
use umtp.Session.Free.{free_session-some}
use umtp.Session.Map.{get_session-session_set}
use umtp.Session.Access.{session_set-IsValid}
use umtp.Session.Valid.{IsValid}
use umtp.Service.{rsp, service_handler}
use umtp.Service.Registry
use umtp.Service.Registry.{Registered}
use umtp.Npdu.{Umtp, SendData, sent, called, max_apdu}
use umtp.Npdu.Handler.{npdu_handler, after_sending}
use umtp.Apdu.{ApduData, umtp_apdu_submit, timeout_ptr}
use umtp.Apdu.Wire.{frame, request_pdu, response_pdu}
use umtp.Apdu.Submit.{IsSync, IsRequest, with_session, has_of_find, got-session, sends-at_once}
use umtp.Apdu.Handle.{npdu_handler-answer, npdu_handler-response_session}

-- The service `d.service` at the requester: the structure `p`, whose response handler is `f`.
pub record Expects (u : Umtp) (fuel service p f : ℕ) (ps : List ℕ) : Type 0 where
  pub registered : Registered u.services ps
  pub enough : length ps < fuel
  pub found : Registry.find u.services.types service ps ≡ some p
  pub handler : (u.services.types p).rsp_handler ≡ some f

-- The session that a request opens.
abbrev pub request_session : Umtp → Session → UmtpAddr → ℕ → List ℕ → Session
request_session c s dst id pdu =
    armed c.conf (some timeout_ptr) c.self dst pdu (length pdu) (opened c.conf id s)

-- Without the session that a request opened, the table is as before.
restored :
    (c : Umtp) (dst : UmtpAddr) (pdu : List ℕ) (id : ℕ) (st : Sessions)
    → IsValid st
    → umtp_get_session c.sessions id ≡ none
    → ((j : ℕ) → j ≢ id → umtp_get_session st j ≡ umtp_get_session c.sessions j)
    → (j : ℕ)
    → (if j == id then none else umtp_get_session (with_session c dst pdu id st).sessions j)
      ≡ umtp_get_session c.sessions j
restored c dst pdu id st v unused others j = ground (
  arith,
  get_session-session_set v c.conf id (some timeout_ptr) c.self dst pdu (length pdu) j,
  others j,
)

-- Between two stacks that send at once: the requester `c`, whose table is valid and has a free entry
-- and whose service has a response handler, submits a confirmed request that fits MAX_APDU with its
-- header to `dst`; the frame that leaves reaches the responder `r`, whose handler gives status 0 and
-- data, at least one byte and so few that the answer with its four bytes of header fits MAX_APDU; the
-- frame that leaves there reaches the requester. Then the requester has sent one frame and called its response handler
-- once, with the data of the responder's handler and the session of the request, and its table finds
-- for every identifier what it found before the request.
pub exchange-Fresh :
    (n : Errno) (sleeps : List (Sessions → Sessions)) (fuel fuel' : ℕ) (c r : Umtp)
    (send_data send_data' : SendData) (src dst : UmtpAddr) (d : ApduData) (s : Session)
    (response : List ℕ) (p f : ℕ) (ps : List ℕ)
    → IsSync c send_data
    → IsSync r send_data'
    → IsRequest d
    → IsValid c.sessions
    → find 0 c.sessions.session ≡ some s
    → Expects c fuel d.service p f ps
    → service_handler n fuel' r.services src d.service d.bytes (length d.bytes) ≡ some (0, response)
    → 0 < length response
    → length response + 4 ≤ max_apdu
    → (id : ℕ) × (c' : Umtp) × (c'' : Umtp) × (r' : Umtp) × (let request =
          frame (request_pdu d.service id d.bytes) in
        let answer = frame (response_pdu d.service id response) in
        (umtp_apdu_submit n sleeps c dst (some d)
          ≡ some (send_data dst request (length request), c'))
        × (npdu_handler n fuel' r src request (length request)
            ≡ some (send_data' src answer (length answer), r'))
        × (r'.effects ≡ r.effects ++ sent src answer (length answer) ∷ [])
        × (npdu_handler n fuel c' dst answer (length answer) ≡ some (0, c''))
        × (c''.effects
            ≡ (c.effects ++ sent dst request (length request) ∷ [])
              ++ called (
                  rsp f dst
                    (some (request_session c s dst id (request_pdu d.service id d.bytes)))
                    response
                    (length response))
                ∷ [])
        × ((j : ℕ) → umtp_get_session c''.sessions j ≡ umtp_get_session c.sessions j))
exchange-Fresh n sleeps fuel fuel' c r send_data send_data' src dst d s response p f ps ci ri rq v
      free ex served pos fits =
    let has_free : has 0 c.sessions.session ≡ true = has_of_find c.sessions.session s free in
    let (id, st, ends, fresh) = free_session-some c.conf v has_free s free in
    let pdu : List ℕ = request_pdu d.service id d.bytes in
    let c' : Umtp = after_sending (with_session c dst pdu id st) dst pdu in
    let (c'', handled, effects, closed, v'') =
      npdu_handler-response_session n fuel c' dst d.service id response ps p f
        (session_set-IsValid fresh.5 c.conf id (some timeout_ptr) c.self dst pdu (length pdu))
        ex.registered ex.enough ex.found ex.handler pos (omega arith) in
    (
      id,
      c',
      c'',
      after_sending r src (response_pdu d.service id response),
      (
        sends-at_once n sleeps c send_data dst d id st ci rq ends fresh.0,
        npdu_handler-answer n fuel' r send_data' src d.service id d.bytes (0, response) ri
            (omega (arith, rq.fits, rq.whole)) served fits,
        refl,
        handled,
        effects
            ∙ ap
                (λ session.
                  c'.effects ++ called (rsp f dst session response (length response)) ∷ [])
                (got-session c dst pdu id st (opened c.conf id s) fresh.5 fresh.3 refl),
        λ j. closed j ∙ restored c dst pdu id st fresh.5 fresh.2 fresh.4 j,
      ),
    )
