-- ===== src/Session/Access.antt =====
-- Setting, reading and clearing a session, by identifier.
use umtp.Base.{
  ℕ, ◌≡◌, ◌≢◌, inl, inr, refl, sym, ◌∙◌, Option, none, some, List, arith, length-overwrite,
  if◌then◌else◌, ◌==◌, ==_ne, ne_of_==, lt_ne, lt→ltb, Bool-cases,
}
use umtp.Addr.{UmtpAddr}
use umtp.Session.{
  Session, Sessions, ApduConf, max_umtp_session, session_get_index, read_out, armed, cleared,
  umtp_session_set, umtp_get_session, umtp_session_get, umtp_session_clear,
}
use umtp.Session.Table.{
  find, modify, session_get_index_cases, find_of_not_has, modify_of_not_has, find-session_id,
  length-modify,
}
use umtp.Session.Valid.{
  IsValid, EntryIsValid, modify_same-Unique, modify-Unique, modify-All, All-find,
}

module _ {st : Sessions} (v : IsValid st) where
  pub get_session-find :
      (id : ℕ) → umtp_get_session st id ≡ (if id == 0 then none else find id st.session)
  unfolding umtp_get_session
  get_session-find id = elim (session_get_index_cases st.session id v.whole) [
    | inl (out, idx) ↦ rw (idx, find_of_not_has id st.session out)
    | inr (at, lt) ↦
        rw (==_ne (session_get_index st.session id) max_umtp_session (lt_ne lt), at.entry)
  ]

  pub session_set-modify :
      (conf : ApduConf) (id : ℕ) (timeout : Option ℕ) (data_ptr : ℕ) (dest : UmtpAddr)
      (pdu : List ℕ) (pdu_len : ℕ)
      → id ≢ 0
      → umtp_session_set conf st id timeout data_ptr dest pdu pdu_len ≡ record st {
        session = modify id (armed conf timeout data_ptr dest pdu pdu_len) st.session;
      }
  unfolding umtp_session_set
  session_set-modify conf id timeout data_ptr dest pdu pdu_len ne =
      elim (session_get_index_cases st.session id v.whole) [
        | inl (out, idx) ↦ rw (==_ne id 0 ne, idx, modify_of_not_has id _ st.session out) refl
        | inr (at, lt) ↦
            rw
              (
                ==_ne id 0 ne,
                ==_ne (session_get_index st.session id) max_umtp_session (lt_ne lt),
                at.change,
              )
              refl
      ]

  pub session_clear-modify :
      (id : ℕ) → umtp_session_clear st id ≡ record st { session = modify id cleared st.session }
  unfolding umtp_session_clear
  session_clear-modify id = elim (session_get_index_cases st.session id v.whole) [
    | inl (out, idx) ↦ rw (idx, modify_of_not_has id cleared st.session out) refl
    | inr (at, lt) ↦ rw (lt→ltb _ _ lt, at.change cleared) refl
  ]

  pub session_get-find :
      (id : ℕ) (out : List ℕ)
      → umtp_session_get st id out ≡ (if id == 0 then none else read_out out (find id st.session))
  unfolding umtp_session_get
  session_get-find id out = elim (session_get_index_cases st.session id v.whole) [
    | inl (no_such, idx) ↦ rw (idx, find_of_not_has id st.session no_such)
    | inr (at, lt) ↦
        rw (==_ne (session_get_index st.session id) max_umtp_session (lt_ne lt), at.entry)
  ]

  pub session_set-IsValid :
      (conf : ApduConf) (id : ℕ) (timeout : Option ℕ) (data_ptr : ℕ) (dest : UmtpAddr)
      (pdu : List ℕ) (pdu_len : ℕ)
      → IsValid (umtp_session_set conf st id timeout data_ptr dest pdu pdu_len)
  session_set-IsValid conf id timeout data_ptr dest pdu pdu_len = elim (Bool-cases (id == 0)) [
    | inl e ↦ unfold umtp_session_set in rw e v
    | inr e ↦
        rw (session_set-modify conf id timeout data_ptr dest pdu pdu_len (ne_of_== id 0 e))
          (record {
            whole = length-modify id f st.session ∙ v.whole;
            word = v.word;
            unique = modify_same-Unique id f (λ s. refl) st.session v.unique;
            entries = modify-All id f EntryIsValid (keep (ne_of_== id 0 e)) st.session v.entries;
          })
  ]
    where
      f : Session → Session
      f = armed conf timeout data_ptr dest pdu pdu_len

      keep : id ≢ 0 → (s : Session) → s.session_id ≡ id → EntryIsValid s → EntryIsValid (f s)
      keep ne s e ok = (ok.0, inl (λ z. ne (sym e ∙ z)), length-overwrite s.pdu pdu pdu_len ∙ ok.2)

  pub session_clear-IsValid : (id : ℕ) → IsValid (umtp_session_clear st id)
  session_clear-IsValid id = rw (session_clear-modify id) (record {
    whole = length-modify id cleared st.session ∙ v.whole;
    word = v.word;
    unique = modify-Unique id cleared 0 (λ s. refl) st.session (inl refl) v.unique;
    entries =
        modify-All id cleared EntryIsValid (λ s e ok. (omega arith, inr refl, ok.2)) st.session
          v.entries;
  })

  -- What `umtp_get_session` finds is an entry of the table with that identifier.
  pub get_session-IsValid :
      (id : ℕ) (s : Session)
      → umtp_get_session st id ≡ some s
      → EntryIsValid s × (s.session_id ≡ id) × (id ≢ 0)
  get_session-IsValid id s found =
      let (e, ne) = inner (rw get_session-find at found) in
      (All-find EntryIsValid id st.session s v.entries e, find-session_id id st.session s e, ne)
    where
      inner :
          (if id == 0 then none else find id st.session) ≡ some s
          → (find id st.session ≡ some s) × (id ≢ 0)
      inner h = ground arith
