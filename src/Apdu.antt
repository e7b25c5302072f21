-- ===== src/Apdu.antt =====
-- core/apdu.c, include/apdu.h and include/error.h: the application layer. A PDU is a list of bytes,
-- with whatever follows it in its array, and its length a number of its own. The flags byte tells in
-- its lowest bit whether a session identifier is there.
pub mod Wire
pub mod Submit
pub mod Handle
pub mod Exchange
pub mod Open
pub mod Short
pub mod Keep
pub mod Total
mod Tests
use umtp.Base.{
  ℕ, zero, suc, ◌+◌, ◌-◌, ◌%◌, Bool, true, false, not, Option, none, some, List, [], ◌∷◌, ◌++◌, ltb,
  ◌==◌, if◌then◌else◌, ◌>>=◌, length, take, drop, sub32, u8_mod, u16_mod,
}
use umtp.Addr.{UmtpAddr}
use umtp.Errno.{Errno, negative}
use umtp.Session.{
  ApduConf, Session, Sessions, Event, resend, timed_out, umtp_free_session, umtp_get_session,
  umtp_session_set, umtp_session_clear, umtp_session_process,
}
use umtp.Service.{
  Services, Call, service_handler, service_rsp_handler, service_error_handler,
  service_timeout_handler,
}
use umtp.Mpu.{Mpu, mpu_put_send}
use umtp.Npdu.{Umtp, Effect, called, byte_at, npdu_send, writes, max_apdu}

abbrev pub pdu_request : ℕ
pdu_request = 0

abbrev pub pdu_response : ℕ
pdu_response = 1

abbrev pub pdu_error : ℕ
pdu_error = 2

abbrev pub pdu_reject : ℕ
pdu_reject = 3

abbrev pub pdu_type_max : ℕ
pdu_type_max = 4

pub apdu_retry : ApduConf → ℕ
apdu_retry conf = conf.umtp_apdu_retry

pub apdu_retry_set : ApduConf → ℕ → ApduConf
apdu_retry_set conf count = record conf { umtp_apdu_retry = count }

pub apdu_timeout : ApduConf → ℕ
apdu_timeout conf = conf.umtp_apdu_timeout

pub apdu_timeout_set : ApduConf → ℕ → ApduConf
apdu_timeout_set conf timeout = record conf { umtp_apdu_timeout = timeout }

-- `apdu_flag & (1 << 0)`
abbrev pub apdu_has_session_id : ℕ → Bool
apdu_has_session_id apdu_flag = apdu_flag % 2 == 1

-- `*apdu_flag |= 1 << 0`
abbrev pub apdu_flag_set_session_id : ℕ → ℕ
apdu_flag_set_session_id apdu_flag =
    if apdu_has_session_id apdu_flag then apdu_flag else apdu_flag + 1

abbrev pub call_all : Umtp → List Call → Umtp
call_all u [] = u
call_all u (c ∷ cs) = call_all (record u { effects = u.effects ++ called c ∷ [] }) cs

pub apdu_timeout_handler : ℕ → Umtp → UmtpAddr → List ℕ → ℕ → Option Umtp
apdu_timeout_handler fuel u dst apdu apdu_len = do
  calls ←
      service_timeout_handler fuel u.services dst (byte_at apdu 2) (drop 4 apdu) (sub32 apdu_len 4)
  some (call_all u calls)

pub put_send : Umtp → ℕ × Option Mpu → ℕ × Umtp
put_send u (ret, mpu) = (ret, record u { mpu = mpu })

pub apdu_submit : Errno → Umtp → UmtpAddr → List ℕ → ℕ → ℕ × Umtp
unfolding put_send
apdu_submit n u dst apdu pdu_len =
    if u.sync_mode
    then npdu_send n u dst apdu pdu_len
    else put_send u (mpu_put_send n u.mpu dst u.self apdu pdu_len)

-- The bytes after the flags and before the data: the type, the service, and the session if there is
-- one.
abbrev pub encode_header : (apdu_flag apdu_type service session_id : ℕ) → List ℕ
encode_header apdu_flag apdu_type service session_id =
    apdu_flag
    ∷ apdu_type
    ∷ service
    ∷ (if apdu_has_session_id apdu_flag then session_id ∷ [] else [])

-- The answer to a request: its service's data, or the lowest byte of the status.
pub encode_rsp : (apdu_flag service session_id : ℕ) → ℕ × List ℕ → List ℕ
encode_rsp apdu_flag service session_id (ret, response) =
    if ret == 0
    then encode_header apdu_flag pdu_response service session_id ++ response
    else encode_header apdu_flag pdu_error service session_id ++ ret % u8_mod ∷ []

-- The answer is written to `apdu_trans_blk`; `encode_len` is a `uint16_t`.
abbrev pub submit_rsp : Errno → Umtp → UmtpAddr → List ℕ → ℕ × Umtp
submit_rsp n u src rsp =
    apdu_submit n (writes max_apdu (length rsp) u) src rsp (length rsp % u16_mod)

pub handle_request :
    Errno
    → ℕ
    → Umtp
    → UmtpAddr
    → (apdu_flag service session_id : ℕ) → List ℕ
    → ℕ
    → Option (ℕ × Umtp)
unfolding encode_rsp apdu_submit
handle_request n fuel u src apdu_flag service session_id request data_len = do
  answer ← service_handler n fuel u.services src service request data_len
  some (submit_rsp n u src (encode_rsp apdu_flag service session_id answer))

-- `session` stays NULL without a session identifier.
abbrev pub session_of : Umtp → (apdu_flag session_id : ℕ) → Option Session
session_of u apdu_flag session_id =
    if apdu_has_session_id apdu_flag then umtp_get_session u.sessions session_id else none

abbrev pub clear_session : Umtp → (apdu_flag session_id : ℕ) → Umtp
clear_session u apdu_flag session_id =
    if apdu_has_session_id apdu_flag
    then record u { sessions = umtp_session_clear u.sessions session_id }
    else u

pub handle_response :
    ℕ → Umtp → UmtpAddr → (apdu_flag service session_id : ℕ) → List ℕ → ℕ → Option (ℕ × Umtp)
handle_response fuel u src apdu_flag service session_id response data_len = do
  calls ←
      service_rsp_handler fuel u.services src service (session_of u apdu_flag session_id) response
        data_len
  some (0, clear_session (call_all u calls) apdu_flag session_id)

pub handle_error :
    ℕ → Umtp → UmtpAddr → (apdu_flag service session_id : ℕ) → List ℕ → Option (ℕ × Umtp)
handle_error fuel u src apdu_flag service session_id rest = do
  calls ←
      service_error_handler fuel u.services src service (byte_at rest 0)
        (session_of u apdu_flag session_id)
  some (0, clear_session (call_all u calls) apdu_flag session_id)

-- The `switch`; the identifier is 0 without a session.
pub handle_type :
    Errno
    → ℕ
    → Umtp
    → UmtpAddr
    → (apdu_flag apdu_type service session_id : ℕ) → List ℕ
    → ℕ
    → Option (ℕ × Umtp)
unfolding handle_request handle_response handle_error
handle_type n fuel u src apdu_flag apdu_type service session_id rest data_len =
    if apdu_type == pdu_request
    then handle_request n fuel u src apdu_flag service session_id rest data_len
    else if apdu_type == pdu_response
    then handle_response fuel u src apdu_flag service session_id rest data_len
    else if apdu_type == pdu_error
    then handle_error fuel u src apdu_flag service session_id rest
    else some (0, clear_session u apdu_flag session_id)

pub apdu_handler : Errno → ℕ → Umtp → UmtpAddr → List ℕ → ℕ → Option (ℕ × Umtp)
unfolding handle_type
apdu_handler n fuel u src apdu pdu_len =
    let apdu_flag = byte_at apdu 0 in
    let apdu_type = byte_at apdu 1 in
    let service = byte_at apdu 2 in
    let with_session =
      handle_type n fuel u src apdu_flag apdu_type service (byte_at apdu 3) (drop 4 apdu)
        (sub32 pdu_len 4) in
    let without =
      handle_type n fuel u src apdu_flag apdu_type service 0 (drop 3 apdu) (sub32 pdu_len 3) in
    if ltb apdu_type pdu_type_max
    then (if apdu_has_session_id apdu_flag then with_session else without)
    else some (negative n.eproto, u)

pub record ApduData : Type 0 where
  pub service : ℕ
  pub confirmed : Bool
  pub bytes : List ℕ
  pub data_len : ℕ

-- The loop that waits for a session. Each entry of the list is what the other threads do to the
-- table during one `usleep`; `none` means that the loop still waits after the last one.
pub acquire : ApduConf → List (Sessions → Sessions) → Sessions → Option (ℕ × Sessions)
acquire conf [] st = umtp_free_session conf st >>= λ got. if got.0 == 0 then none else some got
acquire conf (others ∷ sleeps) st = umtp_free_session conf st >>= λ got.
    let again = acquire conf sleeps (others got.1) in if got.0 == 0 then again else some got

-- The address of `apdu_timeout_handler`.
abbrev pub timeout_ptr : ℕ
timeout_ptr = 1

-- The request, `tmp` up to `encode_len`. Copying it is counted where it is submitted.
abbrev pub encode_request : ApduData → (session_id : ℕ) → List ℕ
encode_request d session_id =
    encode_header (if d.confirmed then apdu_flag_set_session_id 0 else 0) pdu_request
      (d.service % u8_mod) session_id
    ++ take d.data_len d.bytes

abbrev pub submit_confirmed : Errno → Umtp → UmtpAddr → ApduData → ℕ × Sessions → ℕ × Umtp
submit_confirmed n u dst d (id, st) =
    let pdu = encode_request d id in
    let st' = umtp_session_set u.conf st id (some timeout_ptr) u.self dst pdu (4 + d.data_len) in
    apdu_submit n (writes max_apdu (4 + d.data_len) (record u { sessions = st' })) dst pdu
      (4 + d.data_len)

pub umtp_apdu_submit :
    Errno → List (Sessions → Sessions) → Umtp → UmtpAddr → Option ApduData → Option (ℕ × Umtp)
unfolding acquire apdu_submit
umtp_apdu_submit n sleeps u dst none = some (negative n.einval, u)
umtp_apdu_submit n sleeps u dst (some d) =
    if d.confirmed
    then (acquire u.conf sleeps u.sessions >>= λ got. some (submit_confirmed n u dst d got))
    else some (
        apdu_submit n (writes max_apdu (3 + d.data_len) u) dst (encode_request d 0)
          (3 + d.data_len))

-- What `umtp_session_process` calls.
pub handle_event : Errno → ℕ → Umtp → Event → Option Umtp
unfolding apdu_timeout_handler
handle_event n fuel u (resend data_ptr dest pdu pdu_len) = some (npdu_send n u dest pdu pdu_len).1
handle_event n fuel u (timed_out f dest pdu pdu_len) = apdu_timeout_handler fuel u dest pdu pdu_len
