-- ===== src/Session/Tests.antt =====
-- Runs of the session table, and its theorems at a table with one open session.
use umtp.Base.{
  ℕ, ◌≡◌, ◌⊎◌, inl, refl, true, false, some, none, List, [], ◌∷◌, arith, replicate,
  length-replicate,
}
use umtp.Addr.{UmtpAddr}
use umtp.Session.{
  Session, Sessions, ApduConf, blank, umtp_free_session, umtp_session_set, umtp_get_session,
  umtp_session_get, umtp_session_process, next_id,
}
use umtp.Session.Table.{has}
use umtp.Session.Valid.{IsValid, one_entry-IsValid, max_pdu}
use umtp.Session.Map.{session_get-session_set}
use umtp.Session.Free.{Fresh, free_session-Fresh}
use umtp.Session.Process.{left, get_session-session_process}
use umtp.Session.Expire.{Ends, ticks, ticks-expires}

abbrev conf : ApduConf
conf = record { umtp_apdu_timeout = 2; umtp_apdu_retry = 1 }

abbrev peer : UmtpAddr
peer = record { addr_len = 6; addr = 127 ∷ 0 ∷ 0 ∷ 1 ∷ 46 ∷ 8 ∷ 0 ∷ [] }

abbrev live : Session
live = record blank { session_id = 7; waiting = true; timer = 3; timeout = some 11; pdu_len = 3 }

abbrev one_live : Sessions
one_live = record { session_id = 7; session = live ∷ replicate 254 blank }

one_live-IsValid : IsValid one_live
one_live-IsValid =
    one_entry-IsValid 7 live (omega arith)
      (omega arith, inl (omega arith), length-replicate {A = ℕ} max_pdu 0)

live_found : umtp_get_session one_live 7 ≡ some live
unfolding umtp_get_session
live_found = refl

-- The counter stands at an identifier in use: the next one is handed out.
free_session_skips :
    (id : ℕ) × (st : Sessions) × (umtp_free_session conf one_live ≡ some (id, st)) × (id ≡ 8)
unfolding umtp_free_session next_id
free_session_skips = (8, _, refl, refl)

free_session-Fresh_example :
    ((has 0 one_live.session ≡ false) × (umtp_free_session conf one_live ≡ some (0, one_live)))
    ⊎ ((id : ℕ) × (st' : Sessions) × (s : Session) × (umtp_free_session conf one_live
          ≡ some (id, st'))
        × Fresh conf one_live-IsValid id st' s)
free_session-Fresh_example = free_session-Fresh conf one_live-IsValid

session_get-session_set_example :
    umtp_session_get
      (umtp_session_set conf one_live 7 none 1 peer (9 ∷ 8 ∷ []) 2)
      7
      (0 ∷ 0 ∷ 0 ∷ [])
    ≡ some (2, 9 ∷ 8 ∷ 0 ∷ [], peer)
session_get-session_set_example =
    session_get-session_set one_live-IsValid conf 7 none 1 peer (9 ∷ 8 ∷ []) 2 (0 ∷ 0 ∷ 0 ∷ []) live
      live_found (omega arith) (omega arith)

get_session-session_process_example :
    umtp_get_session (umtp_session_process conf one_live 1).0 7
    ≡ left conf 1 (umtp_get_session one_live 7)
get_session-session_process_example = get_session-session_process conf 1 one_live-IsValid 7

abbrev ones : List ℕ
ones = replicate 7 1

ticks-expires_example : Ends 1 live (ticks conf ones live)
ticks-expires_example = ticks-expires conf (omega arith) ones live refl (omega arith) (omega arith)
