-- ===== src/Apdu/Open.antt =====
-- A confirmed request opens one more session of the table.
use umtp.Base.{
  ℕ, suc, ◌<◌, ◌≡◌, ◌≢◌, refl, ap, ◌∙◌, true, none, some, List, [], ◌∷◌, ◌++◌, arith, length, ==_ne,
}
use umtp.Addr.{UmtpAddr}
use umtp.Errno.{Errno}
use umtp.Session.{Session, Sessions, max_umtp_session, umtp_get_session}
use umtp.Session.Table.{find_of_has}
use umtp.Session.Count.{used, has-used, used-modify_same}
use umtp.Session.Free.{free_session-some, free_session-used}
use umtp.Session.Map.{get_session-session_set}
use umtp.Session.Access.{session_set-modify, session_set-IsValid}
use umtp.Session.Valid.{IsValid}
use umtp.Npdu.{Umtp, SendData, sent}
use umtp.Apdu.{ApduData, umtp_apdu_submit, timeout_ptr}
use umtp.Apdu.Wire.{frame, request_pdu}
use umtp.Apdu.Submit.{IsSync, IsRequest, with_session, got-session, sends-at_once}

-- The session `id` was not in use, waits now, and is one more; nothing else changed in the table.
pub record OneMore (before after : Sessions) (id : ℕ) : Type 0 where
  pub unused : umtp_get_session before id ≡ none
  pub session : Session
  pub opened : umtp_get_session after id ≡ some session
  pub waits : session.waiting ≡ true
  pub others : (j : ℕ) → j ≢ id → umtp_get_session after j ≡ umtp_get_session before j
  pub valid : IsValid after
  pub count : used after.session ≡ suc (used before.session)

pub apdu_submit-OneMore :
    (n : Errno) (sleeps : List (Sessions → Sessions)) (u : Umtp) (send_data : SendData)
    (dst : UmtpAddr) (d : ApduData)
    → IsSync u send_data
    → IsRequest d
    → IsValid u.sessions
    → used u.sessions.session < max_umtp_session
    → (id : ℕ) × (st : Sessions) × (let request = frame (request_pdu d.service id d.bytes) in
        umtp_apdu_submit n sleeps u dst (some d)
        ≡ some (
          send_data dst request (length request),
          record u { sessions = st; effects = u.effects ++ sent dst request (length request) ∷ [] },
        ))
      × OneMore u.sessions st id
apdu_submit-OneMore n sleeps u send_data dst d i r v room =
    let free = has-used u.sessions.session (omega (arith, v.whole)) in
    let (s, found) = find_of_has 0 u.sessions.session free in
    let (id, st, ends, fresh) = free_session-some u.conf v free s found in
    let pdu : List ℕ = request_pdu d.service id d.bytes in
    let u' : Umtp = with_session u dst pdu id st in
    (
      id,
      u'.sessions,
      sends-at_once n sleeps u send_data dst d id st i r ends fresh.0,
      record {
        unused = fresh.2;
        session = _;
        opened = got-session u dst pdu id st _ fresh.5 fresh.3 refl;
        waits = refl;
        others = λ j ne.
            get_session-session_set fresh.5 u.conf id (some timeout_ptr) u.self dst pdu (length pdu)
              j
            ∙ rw (==_ne j id ne) (fresh.4 j ne);
        valid =
            session_set-IsValid fresh.5 u.conf id (some timeout_ptr) u.self dst pdu (length pdu);
        count =
            ap (λ st. used st.session)
              (session_set-modify fresh.5 u.conf id (some timeout_ptr) u.self dst pdu (length pdu)
                (omega (arith, fresh.0)))
            ∙ used-modify_same _ (λ s. refl) id st.session
            ∙ free_session-used u.conf v id st free ends;
      },
    )
