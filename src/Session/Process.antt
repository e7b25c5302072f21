-- ===== src/Session/Process.antt =====
-- `umtp_session_process`: the countdown of every waiting session, its retries and its end.
use umtp.Base.{
  ℕ, suc, ◌≡◌, ◌≢◌, ◌⊎◌, refl, ap, ◌∙◌, false, Option, none, some, List, [], ◌∷◌, arith, length,
  ◌==◌, if◌then◌else◌,
}
use umtp.Session.{
  Session, Sessions, ApduConf, tick, process_sessions, umtp_session_process, umtp_get_session,
}
use umtp.Session.Table.{find, has, find_of_not_has}
use umtp.Session.Valid.{IsValid, EntryIsValid, Unique, All}
use umtp.Session.Access.{get_session-find}

-- What `tick` leaves of a session, as a lookup by identifier sees it: a closed one is gone.
abbrev pub left : ApduConf → ℕ → Option Session → Option Session
left conf milliseconds none = none
left conf milliseconds (some s) =
    let s' = (tick conf milliseconds s).0 in if s'.session_id == 0 then none else some s'

module _ (conf : ApduConf) (milliseconds : ℕ) where
  abbrev after : Session → Session
  after s = (tick conf milliseconds s).0

  abbrev all_after : List Session → List Session
  all_after ss = (process_sessions conf milliseconds ss).0

  -- A session keeps its identifier or is closed.
  tick-session_id :
      (s : Session) → ((after s).session_id ≡ s.session_id) ⊎ ((after s).session_id ≡ 0)
  unfolding tick
  tick-session_id s = ground arith

  tick-EntryIsValid : (s : Session) → EntryIsValid s → EntryIsValid (after s)
  unfolding tick
  tick-EntryIsValid s ok = ground arith

  length-process_sessions : (ss : List Session) → length (all_after ss) ≡ length ss
  unfolding process_sessions
  length-process_sessions [] = refl
  length-process_sessions (s ∷ ss) = ap suc (length-process_sessions ss)

  has-process_sessions :
      (j : ℕ) (ss : List Session) → j ≢ 0 → has j ss ≡ false → has j (all_after ss) ≡ false
  unfolding process_sessions
  has-process_sessions j [] ne h = refl
  has-process_sessions j (s ∷ ss) ne h =
      ground (arith, tick-session_id s, has-process_sessions j ss ne)

  process_sessions-Unique : (ss : List Session) → Unique ss → Unique (all_after ss)
  unfolding process_sessions
  process_sessions-Unique [] u = tt
  process_sessions-Unique (s ∷ ss) u =
      ground
        (arith, tick-session_id s, has-process_sessions s.session_id ss, process_sessions-Unique ss)

  process_sessions-All : (ss : List Session) → All EntryIsValid ss → All EntryIsValid (all_after ss)
  unfolding process_sessions
  process_sessions-All [] a = tt
  process_sessions-All (s ∷ ss) (ok, a) = (tick-EntryIsValid s ok, process_sessions-All ss a)

  find-process_sessions :
      (j : ℕ) (ss : List Session)
      → j ≢ 0
      → Unique ss
      → find j (all_after ss) ≡ left conf milliseconds (find j ss)
  unfolding process_sessions
  find-process_sessions j [] ne u = refl
  find-process_sessions j (s ∷ ss) ne u = ground (
    arith,
    tick-session_id s,
    has-process_sessions j ss ne,
    find_of_not_has j (all_after ss),
    find-process_sessions j ss ne,
  )

  module _ {st : Sessions} (v : IsValid st) where
    pub session_process-IsValid : IsValid (umtp_session_process conf st milliseconds).0
    unfolding umtp_session_process
    session_process-IsValid = record {
      whole = length-process_sessions st.session ∙ v.whole;
      word = v.word;
      unique = process_sessions-Unique st.session v.unique;
      entries = process_sessions-All st.session v.entries;
    }

    -- `umtp_session_process` treats each session by itself: an identifier finds what `tick` leaves of
    -- the session that it found before, and nothing if that session is closed.
    pub get_session-session_process :
        (j : ℕ)
        → umtp_get_session (umtp_session_process conf st milliseconds).0 j
          ≡ left conf milliseconds (umtp_get_session st j)
    unfolding umtp_session_process
    get_session-session_process j =
        rw (get_session-find session_process-IsValid j, get_session-find v j)
          (ground (arith, find-process_sessions j st.session, v.unique))
