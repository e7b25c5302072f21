-- ===== src/Apdu/Submit.antt =====
-- What `umtp_apdu_submit` sends, and the session that it opens.
use umtp.Base.{
  take-length, ℕ, ◌+◌, ◌<◌, ◌≤◌, ◌≡◌, ◌%◌, refl, sym, ap, ◌∙◌, true, false, Option, none, some,
  List, [], ◌∷◌, ◌++◌, arith, length, if◌then◌else◌, ◌>>=◌, take, u8_mod, ==_ne, ==_refl,
}
use umtp.Addr.{UmtpAddr}
use umtp.Errno.{Errno}
use umtp.Session.{
  Session, Sessions, armed, opened, umtp_free_session, umtp_get_session, umtp_session_set,
}
use umtp.Session.Table.{find, has}
use umtp.Session.Valid.{IsValid}
use umtp.Session.Access.{session_set-IsValid}
use umtp.Session.Free.{free_session-some}
use umtp.Session.Map.{get_session-session_set}
use umtp.Mpu.{Mpu, mpu_put_send}
use umtp.Npdu.{Umtp, SendData, sent, npdu_send, writes, max_apdu}
use umtp.Npdu.Handler.{after_sending, npdu_send-frame, writes-fits}
use umtp.Apdu.{
  put_send, encode_header, ApduData, acquire, apdu_submit, encode_request, submit_confirmed,
  umtp_apdu_submit, timeout_ptr,
}
use umtp.Apdu.Wire.{frame, request_pdu}

-- The caller of `umtp_apdu_submit` fills in a confirmed request that fits `tmp`.
pub record IsRequest (d : ApduData) : Type 0 where
  pub is_confirmed : d.confirmed ≡ true
  pub whole : length d.bytes ≡ d.data_len
  pub fits : 4 + d.data_len ≤ max_apdu
  pub byte : d.service < u8_mod

-- A stack that sends at once through a data link.
pub record IsSync (u : Umtp) (send_data : SendData) : Type 0 where
  pub sync : u.sync_mode ≡ true
  pub link : u.dl ≡ some send_data

pub apdu_submit-frame :
    (n : Errno) (u : Umtp) (send_data : SendData) (dst : UmtpAddr) (pdu : List ℕ)
    → IsSync u send_data
    → 0 < length pdu
    → length pdu ≤ max_apdu
    → apdu_submit n u dst pdu (length pdu)
      ≡ (send_data dst (frame pdu) (length (frame pdu)), after_sending u dst pdu)
unfolding apdu_submit
apdu_submit-frame n u send_data dst pdu i pos small =
    ap (λ b. if b then npdu_send n u dst pdu (length pdu) else queued) i.sync
    ∙ npdu_send-frame n u send_data dst pdu i.link pos small
  where
    queued : ℕ × Umtp
    queued = put_send u (mpu_put_send n u.mpu dst u.self pdu (length pdu))

pub put_send-eq : (u : Umtp) (r : ℕ × Option Mpu) → put_send u r ≡ (r.0, record u { mpu = r.1 })
unfolding put_send
put_send-eq u (ret, mpu) = refl

-- The two modes: what the layer below makes of the message.
pub apdu_submit-sync :
    (n : Errno) (u : Umtp) (dst : UmtpAddr) (pdu : List ℕ) (len : ℕ)
    → u.sync_mode ≡ true
    → apdu_submit n u dst pdu len ≡ npdu_send n u dst pdu len
unfolding apdu_submit
apdu_submit-sync n u dst pdu len sync =
    ap
      (λ b.
        if b
        then npdu_send n u dst pdu len
        else put_send u (mpu_put_send n u.mpu dst u.self pdu len))
      sync

pub apdu_submit-async :
    (n : Errno) (u : Umtp) (dst : UmtpAddr) (pdu : List ℕ) (len : ℕ)
    → u.sync_mode ≡ false
    → apdu_submit n u dst pdu len ≡ (
      (mpu_put_send n u.mpu dst u.self pdu len).0,
      record u { mpu = (mpu_put_send n u.mpu dst u.self pdu len).1 },
    )
unfolding apdu_submit put_send
apdu_submit-async n u dst pdu len async =
    ap
      (λ b.
        if b
        then npdu_send n u dst pdu len
        else put_send u (mpu_put_send n u.mpu dst u.self pdu len))
      async

acquire-at_once :
    (u : Umtp) (sleeps : List (Sessions → Sessions)) (st st' : Sessions) (id : ℕ)
    → umtp_free_session u.conf st ≡ some (id, st')
    → 0 < id
    → acquire u.conf sleeps st ≡ some (id, st')
unfolding acquire
acquire-at_once u [] st st' id e pos = rw (e, ==_ne id 0 (omega arith)) refl
acquire-at_once u (others ∷ sleeps) st st' id e pos = rw (e, ==_ne id 0 (omega arith)) refl

encode-request :
    (d : ApduData) (id : ℕ) → IsRequest d → encode_request d id ≡ request_pdu d.service id d.bytes
encode-request d id r =
    ap
      (λ b. encode_header (if b then 1 else 0) 0 (d.service % u8_mod) id ++ take d.data_len d.bytes)
      r.is_confirmed
    ∙ ap (λ s. 1 ∷ 0 ∷ s ∷ id ∷ take d.data_len d.bytes) low
    ∙ ap (λ k. 1 ∷ 0 ∷ d.service ∷ id ∷ take k d.bytes) (sym r.whole)
    ∙ ap (λ bs. 1 ∷ 0 ∷ d.service ∷ id ∷ bs) (take-length d.bytes)
  where
    low : d.service % u8_mod ≡ d.service
    low = omega (arith, r.byte)

-- The session table once the new session has been filled in.
abbrev pub with_session : Umtp → UmtpAddr → List ℕ → ℕ → Sessions → Umtp
with_session u dst pdu id st = record u {
  sessions = umtp_session_set u.conf st id (some timeout_ptr) u.self dst pdu (length pdu);
}

submit_confirmed-frame :
    (n : Errno) (u : Umtp) (send_data : SendData) (dst : UmtpAddr) (d : ApduData) (id : ℕ)
    (st : Sessions)
    → IsSync u send_data
    → IsRequest d
    → let pdu = request_pdu d.service id d.bytes in
      submit_confirmed n u dst d (id, st) ≡ (
        send_data dst (frame pdu) (length (frame pdu)),
        after_sending (with_session u dst pdu id st) dst pdu,
      )
submit_confirmed-frame n u send_data dst d id st i r =
    ap (λ pdu. submit pdu (4 + d.data_len)) (encode-request d id r)
    ∙ ap (submit (request_pdu d.service id d.bytes)) whole
    ∙ ap
        (λ u.
          (apdu_submit n u dst (request_pdu d.service id d.bytes)
            (length (request_pdu d.service id d.bytes))))
        (writes-fits max_apdu (length (request_pdu d.service id d.bytes))
          (with_session u dst (request_pdu d.service id d.bytes) id st)
          (omega (arith, r.fits, r.whole)))
    ∙ apdu_submit-frame n (with_session u dst (request_pdu d.service id d.bytes) id st) send_data
        dst (request_pdu d.service id d.bytes) (record { sync = i.sync; link = i.link })
        (omega arith) (omega (arith, r.fits, r.whole))
  where
    submit : List ℕ → ℕ → ℕ × Umtp
    submit pdu len =
        apdu_submit n
          (writes max_apdu len (record u {
            sessions = umtp_session_set u.conf st id (some timeout_ptr) u.self dst pdu len;
          }))
          dst pdu len

    whole : 4 + d.data_len ≡ length (request_pdu d.service id d.bytes)
    whole = omega (arith, r.whole)

pub has_of_find : (ss : List Session) (s : Session) → find 0 ss ≡ some s → has 0 ss ≡ true
has_of_find [] s found = cc
has_of_find (t ∷ ss) s found = ground (arith, has_of_find ss s)

pub got-session :
    (u : Umtp) (dst : UmtpAddr) (pdu : List ℕ) (id : ℕ) (st : Sessions) (s : Session)
    → IsValid st
    → umtp_get_session st id ≡ some s
    → s.session_id ≡ id
    → umtp_get_session (with_session u dst pdu id st).sessions id
      ≡ some (armed u.conf (some timeout_ptr) u.self dst pdu (length pdu) s)
got-session u dst pdu id st s v e same =
    get_session-session_set v u.conf id (some timeout_ptr) u.self dst pdu (length pdu) id
    ∙ rw (==_refl id, e, same) refl

pub sends-at_once :
    (n : Errno) (sleeps : List (Sessions → Sessions)) (u : Umtp) (send_data : SendData)
    (dst : UmtpAddr) (d : ApduData) (id : ℕ) (st : Sessions)
    → IsSync u send_data
    → IsRequest d
    → umtp_free_session u.conf u.sessions ≡ some (id, st)
    → 0 < id
    → let pdu = request_pdu d.service id d.bytes in
      umtp_apdu_submit n sleeps u dst (some d)
      ≡ some (
        send_data dst (frame pdu) (length (frame pdu)),
        after_sending (with_session u dst pdu id st) dst pdu,
      )
unfolding umtp_apdu_submit
sends-at_once n sleeps u send_data dst d id st i r e pos =
    ap (λ b. if b then confirmed else not_confirmed) r.is_confirmed
    ∙ ap (λ got. got >>= λ got. some (submit_confirmed n u dst d got))
        (acquire-at_once u sleeps u.sessions st id e pos)
    ∙ ap some (submit_confirmed-frame n u send_data dst d id st i r)
  where
    confirmed : Option (ℕ × Umtp)
    confirmed = acquire u.conf sleeps u.sessions >>= λ got. some (submit_confirmed n u dst d got)

    not_confirmed : Option (ℕ × Umtp)
    not_confirmed = some (
        apdu_submit n (writes max_apdu (3 + d.data_len) u) dst (encode_request d 0)
          (3 + d.data_len))

-- A confirmed request of at most MAX_APDU bytes, with its header, on a stack that sends at once and
-- whose table is valid and has a free entry, is sent without waiting: the result is the data
-- link's status, one frame leaves, and the session that the frame names was not in use, holds the
-- request until the response comes or the time is up, and stands in a valid table.
pub apdu_submit-Fresh :
    (n : Errno) (sleeps : List (Sessions → Sessions)) (u : Umtp) (send_data : SendData)
    (dst : UmtpAddr) (d : ApduData) (s : Session)
    → IsSync u send_data
    → IsRequest d
    → IsValid u.sessions
    → find 0 u.sessions.session ≡ some s
    → (id : ℕ) × (u' : Umtp) × (0 < id)
      × (id < u8_mod)
      × (let pdu = request_pdu d.service id d.bytes in
          (umtp_apdu_submit n sleeps u dst (some d)
            ≡ some (send_data dst (frame pdu) (length (frame pdu)), u'))
          × (u'.effects ≡ u.effects ++ sent dst (frame pdu) (length (frame pdu)) ∷ [])
          × (umtp_get_session u.sessions id ≡ none)
          × (umtp_get_session u'.sessions id
              ≡ some (
                  armed u.conf (some timeout_ptr) u.self dst pdu (length pdu) (opened u.conf id s)))
          × IsValid u'.sessions)
apdu_submit-Fresh n sleeps u send_data dst d s i r v found =
    let free : has 0 u.sessions.session ≡ true = has_of_find u.sessions.session s found in
    let (id, st, ends, fresh) = free_session-some u.conf v free s found in
    let pdu : List ℕ = request_pdu d.service id d.bytes in
    (
      id,
      after_sending (with_session u dst pdu id st) dst pdu,
      fresh.0,
      fresh.1,
      (
        sends-at_once n sleeps u send_data dst d id st i r ends fresh.0,
        refl,
        fresh.2,
        got-session u dst pdu id st (opened u.conf id s) fresh.5 fresh.3 refl,
        session_set-IsValid fresh.5 u.conf id (some timeout_ptr) u.self dst pdu (length pdu),
      ),
    )
