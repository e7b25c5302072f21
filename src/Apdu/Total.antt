-- ===== src/Apdu/Total.antt =====
-- The handlers of messages and of expired sessions always return, and keep the stack valid.
use umtp.Base.{
  ℕ, ◌<◌, ◌%◌, ◌-◌, drop, sub32, ◌≡◌, refl, sym, ap, Option, some, List, length, ◌==◌, ltb, ◌>>=◌,
}
use mathlib.Core.Path.{subst}
use umtp.Addr.{UmtpAddr}
use umtp.Errno.{Errno}
use umtp.Session.{Event, resend, timed_out}
use umtp.Service.{Call, call_timeout}
use umtp.Service.Registry.{find}
use umtp.Service.Dispatch.{
  service_handler-find, service_rsp_handler-find, service_error_handler-find,
  service_timeout_handler-find,
}
use umtp.Npdu.{Umtp, byte_at, protocol_version}
use umtp.Npdu.Handler.{npdu_handler}
use umtp.Apdu.{
  pdu_type_max, pdu_request, pdu_response, pdu_error, call_all, submit_rsp, encode_rsp,
  clear_session, session_of, handle_request, handle_response, handle_error, handle_type,
  apdu_handler, apdu_timeout_handler, handle_event,
}
use umtp.Apdu.Keep.{
  StackIsValid, EndsValid, on_branches, npdu_send-StackIsValid, call_all-StackIsValid,
  submit_rsp-StackIsValid, clear_session-StackIsValid,
}

module _ (n : Errno) (fuel : ℕ) (ps : List ℕ) (u : Umtp) (v : StackIsValid ps u)
    (enough : length ps < fuel) where
  request-EndsValid :
      (src : UmtpAddr) (apdu_flag service session_id : ℕ) (request : List ℕ) (len : ℕ)
      → EndsValid ps (handle_request n fuel u src apdu_flag service session_id request len)
  unfolding handle_request
  request-EndsValid src apdu_flag service session_id request len =
      let after : ℕ × List ℕ → ℕ × Umtp =
        λ answer. submit_rsp n u src (encode_rsp apdu_flag service session_id answer) in
      let served =
        service_handler-find n u.services ps fuel src service request len v.services enough in
      subst (EndsValid ps) (sym (ap (λ a. a >>= λ a. some (after a)) served))
        (submit_rsp-StackIsValid n ps u src _ v)

  -- After the calls of handlers, the session that the message names is closed.
  called-EndsValid :
      (got : Option (List Call)) (calls : List Call) (apdu_flag session_id : ℕ)
      → got ≡ some calls
      → EndsValid ps
          (got >>= λ calls. some (0, clear_session (call_all u calls) apdu_flag session_id))
  called-EndsValid got calls apdu_flag session_id e = rw e (
      clear_session-StackIsValid ps (call_all u calls) apdu_flag session_id
        (call_all-StackIsValid ps u calls v))

  response-EndsValid :
      (src : UmtpAddr) (apdu_flag service session_id : ℕ) (response : List ℕ) (len : ℕ)
      → EndsValid ps (handle_response fuel u src apdu_flag service session_id response len)
  unfolding handle_response
  response-EndsValid src apdu_flag service session_id response len =
      called-EndsValid _ _ apdu_flag session_id (
        service_rsp_handler-find u.services ps fuel src service (session_of u apdu_flag session_id)
          response len v.services enough)

  error-EndsValid :
      (src : UmtpAddr) (apdu_flag service session_id : ℕ) (rest : List ℕ)
      → EndsValid ps (handle_error fuel u src apdu_flag service session_id rest)
  unfolding handle_error
  error-EndsValid src apdu_flag service session_id rest =
      called-EndsValid _ _ apdu_flag session_id (
        service_error_handler-find u.services ps fuel src service (byte_at rest 0)
          (session_of u apdu_flag session_id) v.services enough)

  type-EndsValid :
      (src : UmtpAddr) (apdu_flag apdu_type service session_id : ℕ) (rest : List ℕ) (len : ℕ)
      → EndsValid ps (handle_type n fuel u src apdu_flag apdu_type service session_id rest len)
  unfolding handle_type
  type-EndsValid src apdu_flag apdu_type service session_id rest len =
      on_branches (EndsValid ps) (apdu_type == pdu_request) _ _
        (request-EndsValid src apdu_flag service session_id rest len)
        (on_branches (EndsValid ps) (apdu_type == pdu_response) _ _
          (response-EndsValid src apdu_flag service session_id rest len)
          (on_branches (EndsValid ps) (apdu_type == pdu_error) _ _
            (error-EndsValid src apdu_flag service session_id rest)
            (clear_session-StackIsValid ps u apdu_flag session_id v)))

  apdu_handler-EndsValid :
      (src : UmtpAddr) (apdu : List ℕ) (len : ℕ) → EndsValid ps (apdu_handler n fuel u src apdu len)
  unfolding apdu_handler
  apdu_handler-EndsValid src apdu len =
      on_branches (EndsValid ps) (ltb (byte_at apdu 1) pdu_type_max) _ _
        (on_branches (EndsValid ps) (byte_at apdu 0 % 2 == 1) _ _
          (type-EndsValid src (byte_at apdu 0) (byte_at apdu 1) (byte_at apdu 2) (byte_at apdu 3)
            (drop 4 apdu) (sub32 len 4))
          (type-EndsValid src (byte_at apdu 0) (byte_at apdu 1) (byte_at apdu 2) 0 (drop 3 apdu)
            (sub32 len 3)))
        v

  -- On a stack whose table, registry and unit are valid, and with more fuel than services are
  -- registered, `npdu_handler` returns for every source, every sequence of bytes and every
  -- length, and the stack is valid afterwards.
  pub npdu_handler-EndsValid :
      (src : UmtpAddr) (pdu : List ℕ) (len : ℕ) → EndsValid ps (npdu_handler n fuel u src pdu len)
  unfolding npdu_handler
  npdu_handler-EndsValid src pdu len =
      on_branches (EndsValid ps) (byte_at pdu 0 == protocol_version) _ _
        (on_branches (EndsValid ps) (ltb 1 len) _ _
          (apdu_handler-EndsValid src (drop 1 pdu) (len - 1)) v)
        v

  timeout-Valid :
      (dst : UmtpAddr) (apdu : List ℕ) (len : ℕ)
      → (u' : Umtp) × (apdu_timeout_handler fuel u dst apdu len ≡ some u') × StackIsValid ps u'
  unfolding apdu_timeout_handler
  timeout-Valid dst apdu len =
      let served =
        service_timeout_handler-find u.services ps fuel dst (byte_at apdu 2) (drop 4 apdu)
          (sub32 len 4) v.services enough in
      let calls : List Call =
        call_timeout u.services (find u.services.types (byte_at apdu 2) ps) dst (byte_at apdu 2)
          (drop 4 apdu) (sub32 len 4) in
      (
        call_all u calls,
        ap (λ calls. calls >>= λ calls. some (call_all u calls)) served,
        call_all-StackIsValid ps u calls v,
      )

  pub handle_event-Valid :
      (e : Event) → (u' : Umtp) × (handle_event n fuel u e ≡ some u') × StackIsValid ps u'
  unfolding handle_event
  handle_event-Valid (resend p dest pdu len) =
      (_, refl, npdu_send-StackIsValid n ps u dest pdu len v)
  handle_event-Valid (timed_out f dest pdu len) = timeout-Valid dest pdu len
