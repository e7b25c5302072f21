-- ===== src/Apdu/Handle.antt =====
-- What `npdu_handler` does with the messages of a confirmed exchange.
use umtp.Base.{
  ℕ, ◌+◌, ◌⊎◌, ltb, lt→ltb, false, ◌<◌, ◌≤◌, ◌≡◌, ◌≢◌, ◌%◌, ◌^◌, refl, ap, ◌∙◌, Option, none, some,
  List, [], ◌∷◌, ◌++◌, arith, length, ◌==◌, if◌then◌else◌, ◌>>=◌, u8_mod, u16_mod, ==_ne,
  Bool-cases, inl, inr,
}
use umtp.Addr.{UmtpAddr}
use umtp.Errno.{Errno, negative}
use umtp.Session.{Session, umtp_get_session}
use umtp.Session.Valid.{IsValid}
use umtp.Session.Access.{session_clear-IsValid}
use umtp.Session.Map.{get_session-session_clear}
use umtp.Service.{Call, rsp, error, service_handler, service_rsp_handler, service_error_handler}
use umtp.Service.Registry.{Registered, find}
use umtp.Service.Dispatch.{
  service_rsp_handler-find, service_error_handler-find, call_rsp-some, call_error-some,
}
use umtp.Npdu.{protocol_version, Umtp, SendData, called, max_apdu}
use umtp.Npdu.Handler.{npdu_handler, after_sending, writes-fits}
use umtp.Apdu.{
  pdu_type_max, apdu_handler, call_all, encode_rsp, handle_request, handle_response, handle_error,
  clear_session, submit_rsp, apdu_submit,
}
use umtp.Apdu.Wire.{
  frame, request_pdu, response_pdu, error_pdu, npdu_handler-request, npdu_handler-response,
  npdu_handler-error,
}
use umtp.Apdu.Submit.{IsSync, apdu_submit-frame}

-- The answer to a confirmed request whose handler gave a status and data.
abbrev pub answer_pdu : (service session_id : ℕ) → ℕ × List ℕ → List ℕ
answer_pdu service id (ret, response) =
    if ret == 0 then response_pdu service id response else error_pdu service id (ret % u8_mod)

encode-answer :
    (service id : ℕ) (answer : ℕ × List ℕ)
    → encode_rsp 1 service id answer ≡ answer_pdu service id answer
unfolding encode_rsp
encode-answer service id (ret, response) = refl

pub answer-length :
    (service id : ℕ) (answer : ℕ × List ℕ)
    → length answer.1 + 4 ≤ max_apdu
    → (0 < length (answer_pdu service id answer))
      × (length (answer_pdu service id answer) ≤ max_apdu)
answer-length service id (ret, response) small = ground arith

-- What a service answers to a confirmed request is submitted to its source.
pub handle_request-answer :
    (n : Errno) (fuel : ℕ) (u : Umtp) (src : UmtpAddr) (service id : ℕ) (request : List ℕ) (len : ℕ)
    (answer : ℕ × List ℕ)
    → service_handler n fuel u.services src service request len ≡ some answer
    → length answer.1 + 4 ≤ max_apdu
    → handle_request n fuel u src 1 service id request len
      ≡ some (
          apdu_submit n u src
            (answer_pdu service id answer)
            (length (answer_pdu service id answer)))
unfolding handle_request
handle_request-answer n fuel u src service id request len answer served fits =
    ap (λ a. a >>= λ a. some (submit_rsp n u src (encode_rsp 1 service id a))) served
    ∙ ap (λ pdu. some (submit_rsp n u src pdu)) (encode-answer service id answer)
    ∙ ap
        (λ u. some (
          apdu_submit n u src (answer_pdu service id answer)
            (length (answer_pdu service id answer) % u16_mod)))
        (writes-fits max_apdu (length (answer_pdu service id answer)) u
          (answer-length service id answer fits).1)
    ∙ ap (λ len. some (apdu_submit n u src (answer_pdu service id answer) len)) whole
  where
    whole : length (answer_pdu service id answer) % u16_mod ≡ length (answer_pdu service id answer)
    whole = omega (arith, (answer-length service id answer fits).1)

-- With a stack that sends at once, the frame of a confirmed request is answered by one frame to its
-- source, which names the same service and session and carries the handler's data, or the lowest
-- byte of its status if that is not 0. The answer must fit the MAX_APDU bytes of `apdu_trans_blk`.
pub npdu_handler-answer :
    (n : Errno) (fuel : ℕ) (u : Umtp) (send_data : SendData) (src : UmtpAddr) (service id : ℕ)
    (bs : List ℕ) (answer : ℕ × List ℕ)
    → IsSync u send_data
    → length bs < 2 ^ 31
    → service_handler n fuel u.services src service bs (length bs) ≡ some answer
    → length answer.1 + 4 ≤ max_apdu
    → let request = frame (request_pdu service id bs) in
      let pdu = answer_pdu service id answer in
      npdu_handler n fuel u src request (length request)
      ≡ some (send_data src (frame pdu) (length (frame pdu)), after_sending u src pdu)
npdu_handler-answer n fuel u send_data src service id bs answer i small served fits =
    let (some_bytes, short) = answer-length service id answer fits in
    npdu_handler-request n fuel u src service id bs small
    ∙ handle_request-answer n fuel u src service id bs (length bs) answer served fits
    ∙ ap some (
        apdu_submit-frame n u send_data src (answer_pdu service id answer) i some_bytes
          (omega (arith, short)))

-- On a stack with a valid table, the frame of a response with data, for a registered service with a
-- response handler, calls that handler once, with the session that it names and with its data, and
-- then that session is closed, every other one is as it was, and the table is still valid.
pub npdu_handler-response_session :
    (n : Errno) (fuel : ℕ) (u : Umtp) (src : UmtpAddr) (service id : ℕ) (response : List ℕ)
    (ps : List ℕ) (p f : ℕ)
    → IsValid u.sessions
    → Registered u.services ps
    → length ps < fuel
    → find u.services.types service ps ≡ some p
    → (u.services.types p).rsp_handler ≡ some f
    → 0 < length response
    → length response < 2 ^ 31
    → (u' : Umtp) × (npdu_handler n fuel u src
          (frame (response_pdu service id response))
          (length (frame (response_pdu service id response)))
        ≡ some (0, u'))
      × (u'.effects
          ≡ u.effects
            ++ called (rsp f src (umtp_get_session u.sessions id) response (length response)) ∷ [])
      × ((j : ℕ)
          → umtp_get_session u'.sessions j
            ≡ (if j == id then none else umtp_get_session u.sessions j))
      × IsValid u'.sessions
unfolding handle_response
npdu_handler-response_session n fuel u src service id response ps p f v l enough found handler pos
      small =
    (
      u',
      npdu_handler-response n fuel u src service id response small
          ∙ ap (λ calls. calls >>= λ calls. some (0, clear_session (call_all u calls) 1 id)) calls,
      refl,
      get_session-session_clear v id,
      session_clear-IsValid v id,
    )
  where
    session : Option Session
    session = umtp_get_session u.sessions id

    call : Call
    call = rsp f src session response (length response)

    u' : Umtp
    u' = clear_session (call_all u (call ∷ [])) 1 id

    calls :
        service_rsp_handler fuel u.services src service session response (length response)
        ≡ some (call ∷ [])
    calls =
        service_rsp_handler-find u.services ps fuel src service session response (length response) l
          enough
        ∙ rw (==_ne (length response) 0 (omega arith)) (
            ap some (
              call_rsp-some u.services (find u.services.types service ps) p f src session response
                (length response) found handler))

-- On a stack with a valid table, the frame of an error, for a registered service with an error
-- handler, calls that handler once, with the session that it names and with the status byte, and
-- then that session is closed, every other one is as it was, and the table is still valid.
pub npdu_handler-error_session :
    (n : Errno) (fuel : ℕ) (u : Umtp) (src : UmtpAddr) (service id status : ℕ) (ps : List ℕ)
    (p f : ℕ)
    → IsValid u.sessions
    → Registered u.services ps
    → length ps < fuel
    → find u.services.types service ps ≡ some p
    → (u.services.types p).error_handler ≡ some f
    → (u' : Umtp) × (npdu_handler n fuel u src
          (frame (error_pdu service id status))
          (length (frame (error_pdu service id status)))
        ≡ some (0, u'))
      × (u'.effects
          ≡ u.effects ++ called (error f src status (umtp_get_session u.sessions id)) ∷ [])
      × ((j : ℕ)
          → umtp_get_session u'.sessions j
            ≡ (if j == id then none else umtp_get_session u.sessions j))
      × IsValid u'.sessions
unfolding handle_error
npdu_handler-error_session n fuel u src service id status ps p f v l enough found handler = (
  u',
  npdu_handler-error n fuel u src service id status
      ∙ ap (λ calls. calls >>= λ calls. some (0, clear_session (call_all u calls) 1 id)) calls,
  refl,
  get_session-session_clear v id,
  session_clear-IsValid v id,
)
  where
    session : Option Session
    session = umtp_get_session u.sessions id

    call : Call
    call = error f src status session

    u' : Umtp
    u' = clear_session (call_all u (call ∷ [])) 1 id

    calls : service_error_handler fuel u.services src service status session ≡ some (call ∷ [])
    calls =
        service_error_handler-find u.services ps fuel src service status session l enough
        ∙ ap some (
            call_error-some u.services (find u.services.types service ps) p f src status session
              found handler)

-- A message of another protocol version, or of the right one with an unknown type of PDU, is refused
-- with -EPROTO and changes nothing.
pub npdu_handler-refuses :
    (n : Errno) (fuel : ℕ) (u : Umtp) (src : UmtpAddr) (version apdu_flag apdu_type : ℕ)
    (rest : List ℕ) (pdu_len : ℕ)
    → 1 < pdu_len
    → (version ≢ protocol_version) ⊎ (pdu_type_max ≤ apdu_type)
    → npdu_handler n fuel u src (version ∷ apdu_flag ∷ apdu_type ∷ rest) pdu_len
      ≡ some (negative n.eproto, u)
unfolding npdu_handler apdu_handler
npdu_handler-refuses n fuel u src version apdu_flag apdu_type rest pdu_len more (inl other) =
    rw (==_ne version protocol_version other) refl
npdu_handler-refuses n fuel u src version apdu_flag apdu_type rest pdu_len more (inr unknown) =
    elim (Bool-cases (version == protocol_version)) [
      | inl e ↦ rw (e, lt→ltb 1 pdu_len more, not_ltb) refl
      | inr e ↦ rw e refl
    ]
  where
    not_ltb : ltb apdu_type pdu_type_max ≡ false
    not_ltb = ground arith
