-- ===== src/Apdu/Wire.antt =====
-- The three messages of a confirmed exchange, and what `apdu_handler` reads from them.
use umtp.Base.{◌+◌, suc, ℕ, ◌<◌, ◌≡◌, ◌^◌, refl, ap, ◌∙◌, List, [], ◌∷◌, arith, length, sub32}
use umtp.Addr.{UmtpAddr}
use umtp.Errno.{Errno}
use umtp.Npdu.{Umtp, protocol_version}
use umtp.Npdu.Handler.{npdu_handler-array, npdu_handler, npdu_handler-frame}
use umtp.Apdu.{
  pdu_request, pdu_response, pdu_error, handle_request, handle_response, handle_error, handle_type,
  apdu_handler,
}

abbrev pub request_pdu : (service session_id : ℕ) → List ℕ → List ℕ
request_pdu service session_id bs = 1 ∷ pdu_request ∷ service ∷ session_id ∷ bs

abbrev pub response_pdu : (service session_id : ℕ) → List ℕ → List ℕ
response_pdu service session_id bs = 1 ∷ pdu_response ∷ service ∷ session_id ∷ bs

abbrev pub error_pdu : (service session_id status : ℕ) → List ℕ
error_pdu service session_id status = 1 ∷ pdu_error ∷ service ∷ session_id ∷ status ∷ []

-- The frame of a PDU.
abbrev pub frame : List ℕ → List ℕ
frame pdu = protocol_version ∷ pdu

-- The data length that `apdu_handler` computes from the length of the message.
after_header :
    (service session_id apdu_type : ℕ) (bs : List ℕ)
    → length bs < 2 ^ 31
    → sub32 (length (1 ∷ apdu_type ∷ service ∷ session_id ∷ bs)) 4 ≡ length bs
after_header service session_id apdu_type bs small = omega arith

module _ (n : Errno) (fuel : ℕ) (u : Umtp) (src : UmtpAddr) (service session_id : ℕ)
    (bs : List ℕ) where
  pub handler-request :
      (len : ℕ)
      → apdu_handler n fuel u src (request_pdu service session_id bs) len
        ≡ handle_request n fuel u src 1 service session_id bs (sub32 len 4)
  unfolding apdu_handler handle_type
  handler-request len = refl

  handler-response :
      (len : ℕ)
      → apdu_handler n fuel u src (response_pdu service session_id bs) len
        ≡ handle_response fuel u src 1 service session_id bs (sub32 len 4)
  unfolding apdu_handler handle_type
  handler-response len = refl

  -- With `bs` in the array, of which `len` bytes are the request's data.
  pub npdu_handler-request_array :
      (len : ℕ)
      → len < 2 ^ 31
      → npdu_handler n fuel u src (frame (request_pdu service session_id bs)) (5 + len)
        ≡ handle_request n fuel u src 1 service session_id bs len
  npdu_handler-request_array len lt =
      ap (npdu_handler n fuel u src (frame (request_pdu service session_id bs))) more
      ∙ npdu_handler-array n fuel u src (request_pdu service session_id bs) (4 + len) (omega arith)
      ∙ handler-request (4 + len)
      ∙ ap (handle_request n fuel u src 1 service session_id bs) rest
    where
      more : 5 + len ≡ suc (4 + len)
      more = omega arith

      rest : sub32 (4 + len) 4 ≡ len
      rest = omega arith

  module _ (small : length bs < 2 ^ 31) where
    pub npdu_handler-request :
        npdu_handler n fuel u src
          (frame (request_pdu service session_id bs))
          (length (frame (request_pdu service session_id bs)))
        ≡ handle_request n fuel u src 1 service session_id bs (length bs)
    npdu_handler-request =
        npdu_handler-frame n fuel u src (request_pdu service session_id bs) (omega arith)
        ∙ handler-request (length (request_pdu service session_id bs))
        ∙ ap (handle_request n fuel u src 1 service session_id bs)
            (after_header service session_id pdu_request bs small)

    pub npdu_handler-response :
        npdu_handler n fuel u src
          (frame (response_pdu service session_id bs))
          (length (frame (response_pdu service session_id bs)))
        ≡ handle_response fuel u src 1 service session_id bs (length bs)
    npdu_handler-response =
        npdu_handler-frame n fuel u src (response_pdu service session_id bs) (omega arith)
        ∙ handler-response (length (response_pdu service session_id bs))
        ∙ ap (handle_response fuel u src 1 service session_id bs)
            (after_header service session_id pdu_response bs small)

handler-error :
    (n : Errno) (fuel : ℕ) (u : Umtp) (src : UmtpAddr) (service session_id status len : ℕ)
    → apdu_handler n fuel u src (error_pdu service session_id status) len
      ≡ handle_error fuel u src 1 service session_id (status ∷ [])
unfolding apdu_handler handle_type
handler-error n fuel u src service session_id status len = refl

pub npdu_handler-error :
    (n : Errno) (fuel : ℕ) (u : Umtp) (src : UmtpAddr) (service session_id status : ℕ)
    → npdu_handler n fuel u src
        (frame (error_pdu service session_id status))
        (length (frame (error_pdu service session_id status)))
      ≡ handle_error fuel u src 1 service session_id (status ∷ [])
npdu_handler-error n fuel u src service session_id status =
    npdu_handler-frame n fuel u src (error_pdu service session_id status) (omega arith)
    ∙ handler-error n fuel u src service session_id status
        (length (error_pdu service session_id status))
