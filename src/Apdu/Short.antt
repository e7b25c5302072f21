-- ===== src/Apdu/Short.antt =====
-- Requests that end within their header.
use umtp.Base.{ℕ, suc, ◌+◌, ◌-◌, ◌^◌, ◌<◌, ◌≤◌, ◌≡◌, ap, ◌∙◌, some, List, arith, length, sub32}
use umtp.Addr.{UmtpAddr}
use umtp.Errno.{Errno}
use umtp.Service.{ReqHandler}
use umtp.Service.Registry.{Registered, find}
use umtp.Service.Dispatch.{service_handler-some}
use umtp.Npdu.{Umtp, SendData, max_apdu}
use umtp.Npdu.Handler.{npdu_handler, npdu_handler-array, after_sending}
use umtp.Apdu.{handle_request}
use umtp.Apdu.Wire.{frame, request_pdu, handler-request}
use umtp.Apdu.Submit.{IsSync, apdu_submit-frame}
use umtp.Apdu.Handle.{answer_pdu, answer-length, handle_request-answer}

-- A message of two, three or four bytes, which ends within the header of five bytes that it begins, is
-- not refused: if what stands behind it in its array makes it a confirmed request for a registered
-- service, then on a stack that sends at once the service's handler is called, with what follows the
-- header in the array and with a data length that is 2 ^ 32 less the bytes that the message is short of,
-- and its answer, if it fits MAX_APDU, is sent.
pub npdu_handler-short_request :
    (n : Errno) (fuel : ℕ) (u : Umtp) (send_data : SendData) (src : UmtpAddr) (service id : ℕ)
    (behind : List ℕ) (len p : ℕ) (ps : List ℕ) (h : ReqHandler) (answer : ℕ × List ℕ)
    → IsSync u send_data
    → Registered u.services ps
    → length ps < fuel
    → find u.services.types service ps ≡ some p
    → (u.services.types p).req_handler ≡ some h
    → 2 ≤ len
    → len < 5
    → h src service behind (2 ^ 32 - (5 - len)) ≡ answer
    → length answer.1 + 4 ≤ max_apdu
    → let pdu = answer_pdu service id answer in
      npdu_handler n fuel u src (frame (request_pdu service id behind)) len
      ≡ some (send_data src (frame pdu) (length (frame pdu)), after_sending u src pdu)
npdu_handler-short_request n fuel u send_data src service id behind len p ps h answer i l enough
      found has_handler more less answers fits =
    let data_len : ℕ = 2 ^ 32 - (5 - len) in
    let (some_bytes, short) = answer-length service id answer fits in
    let one_more : len ≡ suc (len - 1) = omega arith in
    let wraps : sub32 (len - 1) 4 ≡ data_len = omega arith in
    ap (npdu_handler n fuel u src (frame (request_pdu service id behind))) one_more
    ∙ npdu_handler-array n fuel u src (request_pdu service id behind) (len - 1) (omega arith)
    ∙ handler-request n fuel u src service id behind (len - 1)
    ∙ ap (λ k. handle_request n fuel u src 1 service id behind k) wraps
    ∙ handle_request-answer n fuel u src service id behind data_len answer
        (service_handler-some n u.services ps fuel p h src service behind data_len l enough found
            has_handler (omega arith)
          ∙ ap some answers)
        fits
    ∙ ap some
        (apdu_submit-frame n u send_data src (answer_pdu service id answer) i some_bytes short)
