-- ===== src/Session/Map.antt =====
-- The table of sessions as a map from identifiers to sessions: what `umtp_get_session` finds after
-- each operation.
use umtp.Base.{
  ℕ, ◌≤◌, ◌≡◌, inl, inr, refl, Option, none, some, List, arith, length, overwrite,
  overwrite-overwrite, if◌then◌else◌, ◌==◌, ne_of_==, Bool-cases,
}
use umtp.Addr.{UmtpAddr}
use umtp.Session.{
  Session, Sessions, ApduConf, armed, cleared, read_out, umtp_session_set, umtp_get_session,
  umtp_session_get, umtp_session_clear,
}
use umtp.Session.Table.{
  map_entry, modify, find-modify_self, find-modify_ne, find-modify_other, find_of_not_has,
}
use umtp.Session.Valid.{IsValid, max_pdu, has-modify_gone}
use umtp.Session.Access.{
  get_session-find, get_session-IsValid, session_get-find, session_set-modify, session_clear-modify,
  session_set-IsValid, session_clear-IsValid,
}

module _ {st : Sessions} (v : IsValid st) where
  -- `umtp_session_set` fills in the session with its identifier, if there is one, and changes no
  -- other.
  pub get_session-session_set :
      (conf : ApduConf) (id : ℕ) (timeout : Option ℕ) (data_ptr : ℕ) (dest : UmtpAddr)
      (pdu : List ℕ) (pdu_len j : ℕ)
      → umtp_get_session (umtp_session_set conf st id timeout data_ptr dest pdu pdu_len) j ≡ (
          if j == id
          then map_entry id (armed conf timeout data_ptr dest pdu pdu_len) (umtp_get_session st id)
          else umtp_get_session st j)
  get_session-session_set conf id timeout data_ptr dest pdu pdu_len j =
      rw
        (
          get_session-find (session_set-IsValid v conf id timeout data_ptr dest pdu pdu_len) j,
          get_session-find v id,
          get_session-find v j,
        )
        (elim (Bool-cases (id == 0)) [
          | inl e ↦ unfold umtp_session_set in rw e (ground arith)
          | inr e ↦
              rw (session_set-modify v conf id timeout data_ptr dest pdu pdu_len (ne_of_== id 0 e))
                (ground (
                  arith,
                  find-modify_self id f (λ s. refl) st.session,
                  find-modify_ne id f (λ s. refl) j st.session,
                ))
        ])
    where
      f : Session → Session
      f = armed conf timeout data_ptr dest pdu pdu_len

  -- `umtp_session_clear` removes the session with its identifier, and no other.
  pub get_session-session_clear :
      (id j : ℕ)
      → umtp_get_session (umtp_session_clear st id) j
        ≡ (if j == id then none else umtp_get_session st j)
  get_session-session_clear id j =
      rw
        (
          get_session-find (session_clear-IsValid v id) j,
          get_session-find v j,
          session_clear-modify v id,
        )
        (ground (
          arith,
          find-modify_other id cleared 0 (λ s. refl) j st.session,
          has-modify_gone id cleared 0 (λ s. refl) st.session,
          find_of_not_has id (modify id cleared st.session),
          v.unique,
        ))

  -- Of a session that was set with a pdu of at most MAX_PDU bytes, `umtp_session_get` returns the
  -- length, the pdu and the address that were set.
  pub session_get-session_set :
      (conf : ApduConf) (id : ℕ) (timeout : Option ℕ) (data_ptr : ℕ) (dest : UmtpAddr)
      (pdu : List ℕ) (pdu_len : ℕ) (out : List ℕ) (s : Session)
      → umtp_get_session st id ≡ some s
      → pdu_len ≤ length pdu
      → pdu_len ≤ max_pdu
      → umtp_session_get (umtp_session_set conf st id timeout data_ptr dest pdu pdu_len) id out
        ≡ some (pdu_len, overwrite out pdu pdu_len, dest)
  unfolding read_out
  session_get-session_set conf id timeout data_ptr dest pdu pdu_len out s open_session fits room =
      ground (
        arith,
        session_get-find (session_set-IsValid v conf id timeout data_ptr dest pdu pdu_len) id out,
        get_session-find (session_set-IsValid v conf id timeout data_ptr dest pdu pdu_len) id,
        get_session-session_set conf id timeout data_ptr dest pdu pdu_len id,
        overwrite-overwrite out s.pdu pdu pdu_len,
        room_for,
      )
    where
      room_for : length s.pdu ≡ max_pdu
      room_for = (get_session-IsValid v id s open_session).0.2
