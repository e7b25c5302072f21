-- ===== src/Session/Expire.antt =====
-- A request whose response never comes: it is sent again as often as the setting says, then its
-- timeout function is called once, and the session is free.
use umtp.Base.{
  ℕ, zero, suc, ◌+◌, ◌-◌, ◌*◌, ◌≤◌, ◌<◌, ◌≡◌, inl, inr, refl, sym, ap, ◌∙◌, true, false, none, some,
  List, [], ◌∷◌, ◌++◌, arith, length, ltb, ==_ne, Bool-cases, u8_mod, replicate,
}
use mathlib.Core.List.{append-nil}
use umtp.Session.{
  Session, Sessions, ApduConf, Event, resend, call_timeout, tick, umtp_session_process,
  umtp_get_session,
}
use umtp.Session.Valid.{IsValid}
use umtp.Session.Access.{get_session-IsValid}
use umtp.Session.Process.{left, session_process-IsValid, get_session-session_process}

abbrev pub Positive : List ℕ → Type 0
Positive [] = Unit {0}
Positive (d ∷ ds) = (0 < d) × Positive ds

-- One session under a sequence of calls of `umtp_session_process`, given by their milliseconds.
pub ticks : ApduConf → List ℕ → Session → Session × List Event
ticks conf [] s = (s, [])
ticks conf (d ∷ ds) s =
    let (s', now) = tick conf d s in let (s'', later) = ticks conf ds s' in (s'', now ++ later)

-- The rounds that a session has left at most: each round takes off a millisecond or more.
abbrev pub rounds_left : ApduConf → Session → ℕ
rounds_left conf s = s.timer + (conf.umtp_apdu_retry - s.retry) * (conf.umtp_apdu_timeout + 1)

abbrev pub resent : Session → Event
resent s = resend s.data_ptr s.dest s.pdu s.pdu_len

-- The three things that a round does to a waiting session.
data Round (conf : ApduConf) (d : ℕ) (s : Session) : Type 0 where
  counted : d < s.timer → tick conf d s ≡ (record s { timer = s.timer - d }, []) → Round conf d s
  retried :
      s.retry < conf.umtp_apdu_retry
      → tick conf d s
        ≡ (record s { timer = conf.umtp_apdu_timeout; retry = s.retry + 1 }, resent s ∷ [])
      → Round conf d s
  closed :
      conf.umtp_apdu_retry ≤ s.retry
      → tick conf d s ≡ (
        record s { timer = 0; waiting = false; session_id = 0 },
        call_timeout s.timeout s.dest s.pdu s.pdu_len,
      )
      → Round conf d s

-- A session that is gone, after it was sent `n` times again and its timeout function was called.
abbrev pub Ends : ℕ → Session → Session × List Event → Type 0
Ends n s (s', events) =
    (s'.session_id ≡ 0)
    × (s'.waiting ≡ false)
    × (events ≡ replicate n (resent s) ++ call_timeout s.timeout s.dest s.pdu s.pdu_len)

-- The table under the same calls.
pub sessions_after : ApduConf → List ℕ → Sessions → Sessions
sessions_after conf [] st = st
sessions_after conf (d ∷ ds) st = sessions_after conf ds (umtp_session_process conf st d).0

module _ (conf : ApduConf) (small : conf.umtp_apdu_retry < u8_mod) where
  tick-Round : (d : ℕ) (s : Session) → s.waiting ≡ true → Round conf d s
  unfolding tick
  tick-Round d s w = elim (Bool-cases (ltb d s.timer)) [
    | inl e ↦ counted (ground arith) (ground arith)
    | inr e ↦ elim (Bool-cases (ltb s.retry conf.umtp_apdu_retry)) [
      | inl r ↦ retried (ground arith) (ground arith)
      | inr r ↦ closed (ground arith) (ground arith)
    ]
  ]

  ticks-idle : (ds : List ℕ) (s : Session) → s.waiting ≡ false → ticks conf ds s ≡ (s, [])
  unfolding ticks tick
  ticks-idle [] s w = refl
  ticks-idle (d ∷ ds) s w = ground (arith, ticks-idle ds s w)

  ticks-Ends :
      (ds : List ℕ) (n : ℕ) (s : Session)
      → s.waiting ≡ true
      → conf.umtp_apdu_retry - s.retry ≡ n
      → Positive ds
      → s.timer + n * (conf.umtp_apdu_timeout + 1) < length ds
      → Ends n s (ticks conf ds s)
  unfolding ticks
  ticks-Ends [] n s w e pos enough = absurd (omega arith)
  ticks-Ends (d ∷ ds) zero s w e (p, pos) enough = elim (tick-Round d s w) [
    | counted lt t ↦
        rw t (ticks-Ends ds zero (record s { timer = s.timer - d }) w e pos (omega arith))
    | retried lt t ↦ absurd (omega arith)
    | closed le t ↦
        rw (t, ticks-idle ds (record s { timer = 0; waiting = false; session_id = 0 }) refl)
          (refl, refl, append-nil (call_timeout s.timeout s.dest s.pdu s.pdu_len))
  ]
  ticks-Ends (d ∷ ds) (suc n) s w e (p, pos) enough = elim (tick-Round d s w) [
    | counted lt t ↦
        rw t (ticks-Ends ds (suc n) (record s { timer = s.timer - d }) w e pos (omega arith))
    | retried lt t ↦
        let (gone, idle, events) =
          ticks-Ends ds n (record s { timer = conf.umtp_apdu_timeout; retry = s.retry + 1 }) w
            (omega arith) pos (grind arith) in
        rw t (gone, idle, ap (◌∷◌ (resent s)) events)
    | closed le t ↦ absurd (omega arith)
  ]

  -- A session that waits, under calls of `umtp_session_process` with at least one millisecond each,
  -- of which there are more than it has rounds left: it is sent again as often as `apdu_retry` still
  -- allows, after that its timeout function is called once, unless it is NULL, and nothing else is
  -- called for it; it ends as a free entry that does not wait.
  pub ticks-expires :
      (ds : List ℕ) (s : Session)
      → s.waiting ≡ true
      → Positive ds
      → rounds_left conf s < length ds
      → Ends (conf.umtp_apdu_retry - s.retry) s (ticks conf ds s)
  ticks-expires ds s w pos enough =
      ticks-Ends ds (conf.umtp_apdu_retry - s.retry) s w refl pos enough

  sessions_after-none :
      (ds : List ℕ) (id : ℕ) {st : Sessions}
      → IsValid st
      → umtp_get_session st id ≡ none
      → umtp_get_session (sessions_after conf ds st) id ≡ none
  unfolding sessions_after
  sessions_after-none [] id v gone = gone
  sessions_after-none (d ∷ ds) id v gone =
      sessions_after-none ds id (session_process-IsValid conf d v)
        (get_session-session_process conf d v id ∙ ap (left conf d) gone)

  -- Every waiting session leaves the table, if `umtp_session_process` is called often enough.
  pub session_process-expires :
      (ds : List ℕ) (id : ℕ) {st : Sessions} (s : Session)
      → IsValid st
      → umtp_get_session st id ≡ some s
      → s.waiting ≡ true
      → Positive ds
      → rounds_left conf s < length ds
      → umtp_get_session (sessions_after conf ds st) id ≡ none
  unfolding sessions_after
  session_process-expires [] id s v found w pos enough = absurd (omega arith)
  session_process-expires (d ∷ ds) id {st} s v found w (p, pos) enough = elim (tick-Round d s w) [
    | counted lt t ↦
        session_process-expires ds id (record s { timer = s.timer - d }) v' (stays _ t refl) w pos
          (omega arith)
    | retried lt t ↦
        session_process-expires ds id
          (record s { timer = conf.umtp_apdu_timeout; retry = s.retry + 1 }) v' (stays _ t refl) w
          pos (fewer lt)
    | closed le t ↦ sessions_after-none ds id v' (now ∙ gone t)
  ]
    where
      v' : IsValid (umtp_session_process conf st d).0
      v' = session_process-IsValid conf d v

      now : umtp_get_session (umtp_session_process conf st d).0 id ≡ left conf d (some s)
      now = get_session-session_process conf d v id ∙ ap (left conf d) found

      stays :
          (s' : Session) {events : List Event}
          → tick conf d s ≡ (s', events)
          → s'.session_id ≡ s.session_id
          → umtp_get_session (umtp_session_process conf st d).0 id ≡ some s'
      stays s' t same =
          let (_, is, ne) = get_session-IsValid v id s found in
          now ∙ rw (t, ==_ne s'.session_id 0 (λ z. ne (sym is ∙ sym same ∙ z)))

      gone :
          tick conf d s ≡ (
            record s { timer = 0; waiting = false; session_id = 0 },
            call_timeout s.timeout s.dest s.pdu s.pdu_len,
          )
          → left conf d (some s) ≡ none
      gone t = rw t

      fewer :
          s.retry < conf.umtp_apdu_retry
          → conf.umtp_apdu_timeout
              + (conf.umtp_apdu_retry - (s.retry + 1)) * (conf.umtp_apdu_timeout + 1)
            < length ds
      fewer lt =
          let one_less : conf.umtp_apdu_retry - s.retry
              ≡ suc (conf.umtp_apdu_retry - (s.retry + 1)) =
            omega arith in
          omega (arith, ap (λ (k : ℕ). k * (conf.umtp_apdu_timeout + 1)) one_less)
