-- ===== src/Session.antt =====
-- core/session.c and include/session.h: the table of sessions, one for each request that waits for
-- its response, with the retries and timeouts of core/apdu.c's settings. A pointer is a number, and
-- a call through a function pointer or into the network layer is an event.
pub mod Table
pub mod Valid
pub mod Free
pub mod Access
pub mod Count
pub mod Map
pub mod Process
pub mod Expire
mod Tests
use umtp.Base.{
  ℕ, zero, suc, ◌+◌, ◌-◌, ◌%◌, ◌≡◌, Bool, true, false, not, Option, none, some, List, [], ◌∷◌, ◌++◌,
  ltb, ◌==◌, if◌then◌else◌, get_elem?, overwrite, add32, u8_mod, replicate,
}
use umtp.Addr.{UmtpAddr}

abbrev pub max_umtp_session : ℕ
max_umtp_session = 255

-- `pdu` is the whole array of MAX_PDU bytes, of which the first `pdu_len` are in use.
pub record Session : Type 0 where
  pub session_id : ℕ
  pub waiting : Bool
  pub retry : ℕ
  pub timer : ℕ
  pub timeout : Option ℕ
  pub dest : UmtpAddr
  pub pdu : List ℕ
  pub pdu_len : ℕ
  pub data_ptr : ℕ

-- `umtp_apdu_timeout` and `umtp_apdu_retry` of core/apdu.c.
pub record ApduConf : Type 0 where
  pub umtp_apdu_timeout : ℕ
  pub umtp_apdu_retry : ℕ

-- The static variables of session.c: the next identifier to try, an `int` as its 32-bit pattern,
-- and the table.
pub record Sessions : Type 0 where
  pub session_id : ℕ
  pub session : List Session

-- The loop of `session_get_index` from index `i` on.
get_index_from : ℕ → List Session → ℕ → ℕ
get_index_from i [] id = max_umtp_session
get_index_from i (s ∷ ss) id =
    if s.session_id == id then i % u8_mod else get_index_from (i + 1) ss id

pub session_get_index : List Session → ℕ → ℕ
unfolding get_index_from
session_get_index ss id = get_index_from 0 ss id

-- What a statement `session[idx].field = ...` does to the table.
pub update_at : List Session → ℕ → (Session → Session) → List Session
update_at [] idx f = []
update_at (s ∷ ss) zero f = f s ∷ ss
update_at (s ∷ ss) (suc idx) f = s ∷ update_at ss idx f

-- `session_id++; if (session_id == 0) session_id = 1;`
pub next_id : ℕ → ℕ
next_id n = if add32 n 1 == 0 then 1 else add32 n 1

-- The entry that `umtp_free_session` hands out.
abbrev pub opened : ApduConf → ℕ → Session → Session
opened conf id s = record s { session_id = id; waiting = false; timer = conf.umtp_apdu_timeout }

-- The `while (!fount)` loop on fuel; `none` means that the fuel ran out.
free_loop : ApduConf → ℕ → Sessions → Option (ℕ × Sessions)
free_loop conf zero st = none
free_loop conf (suc fuel) st =
    let rest = free_loop conf fuel (record st { session_id = next_id st.session_id }) in
    let idx = session_get_index st.session 0 in
    let id = st.session_id % u8_mod in
    if session_get_index st.session id == max_umtp_session
    then (if idx == max_umtp_session
        then some (0, st)
        else some (
          id,
          record {
            session_id = next_id st.session_id;
            session = update_at st.session idx (opened conf id);
          },
        ))
    else rest

abbrev pub free_fuel : ℕ
free_fuel = 256

pub umtp_free_session : ApduConf → Sessions → Option (ℕ × Sessions)
unfolding session_get_index free_loop
umtp_free_session conf st =
    if session_get_index st.session 0 == max_umtp_session
    then some (0, st)
    else free_loop conf free_fuel st

-- The entry that `umtp_session_set` fills in.
abbrev pub armed : ApduConf → Option ℕ → ℕ → UmtpAddr → List ℕ → ℕ → Session → Session
armed conf timeout data_ptr dest pdu pdu_len s = record s {
  waiting = true;
  retry = 0;
  timer = conf.umtp_apdu_timeout;
  timeout = timeout;
  dest = dest;
  pdu = overwrite s.pdu pdu pdu_len;
  pdu_len = pdu_len;
  data_ptr = data_ptr;
}

pub umtp_session_set : ApduConf → Sessions → ℕ → Option ℕ → ℕ → UmtpAddr → List ℕ → ℕ → Sessions
unfolding session_get_index update_at
umtp_session_set conf st id timeout data_ptr dest pdu pdu_len =
    if id == 0
    then st
    else let idx = session_get_index st.session id in
      if idx == max_umtp_session then st else record st {
        session = update_at st.session idx (armed conf timeout data_ptr dest pdu pdu_len);
      }

-- The pointer that is returned is read as the entry that it points to.
pub umtp_get_session : Sessions → ℕ → Option Session
unfolding session_get_index
umtp_get_session st id =
    if id == 0
    then none
    else let idx = session_get_index st.session id in
      if idx == max_umtp_session then none else get_elem? st.session idx

-- `none` is the result false; otherwise what is written through the three pointers, the length,
-- the caller's array with the pdu copied in, and the address.
pub read_out : List ℕ → Option Session → Option (ℕ × List ℕ × UmtpAddr)
read_out out none = none
read_out out (some s) = some (s.pdu_len, overwrite out s.pdu s.pdu_len, s.dest)

pub umtp_session_get : Sessions → ℕ → List ℕ → Option (ℕ × List ℕ × UmtpAddr)
unfolding session_get_index read_out
umtp_session_get st id out =
    if id == 0
    then none
    else let idx = session_get_index st.session id in
      if idx == max_umtp_session then none else read_out out (get_elem? st.session idx)

abbrev pub cleared : Session → Session
cleared s = record s { waiting = false; session_id = 0 }

pub umtp_session_clear : Sessions → ℕ → Sessions
unfolding session_get_index update_at
umtp_session_clear st id =
    let idx = session_get_index st.session id in
    if ltb idx max_umtp_session
    then record st { session = update_at st.session idx cleared }
    else st

-- What `umtp_session_process` calls: `npdu_send` with the session's data, and its timeout function.
pub data Event : Type 0 where
  resend : ℕ → UmtpAddr → List ℕ → ℕ → Event
  timed_out : ℕ → UmtpAddr → List ℕ → ℕ → Event

-- The call is skipped at NULL.
pub call_timeout : Option ℕ → UmtpAddr → List ℕ → ℕ → List Event
call_timeout none dest pdu pdu_len = []
call_timeout (some f) dest pdu pdu_len = timed_out f dest pdu pdu_len ∷ []

-- One round of the loop of `umtp_session_process`, with the timer as it is after the countdown.
pub expire : ApduConf → ℕ → Session → Session × List Event
unfolding call_timeout
expire conf timer s =
    if timer == 0
    then (if ltb s.retry conf.umtp_apdu_retry
        then (
          record s { timer = conf.umtp_apdu_timeout; retry = (s.retry + 1) % u8_mod },
          resend s.data_ptr s.dest s.pdu s.pdu_len ∷ [],
        )
        else (
          record s { timer = timer; waiting = false; session_id = 0 },
          call_timeout s.timeout s.dest s.pdu s.pdu_len,
        ))
    else (record s { timer = timer }, [])

pub tick : ApduConf → ℕ → Session → Session × List Event
unfolding expire
tick conf milliseconds s =
    if s.waiting
    then expire conf (if ltb milliseconds s.timer then s.timer - milliseconds else 0) s
    else (s, [])

process_sessions : ApduConf → ℕ → List Session → List Session × List Event
unfolding tick
process_sessions conf milliseconds [] = ([], [])
process_sessions conf milliseconds (s ∷ ss) =
    let (s', now) = tick conf milliseconds s in
    let (ss', later) = process_sessions conf milliseconds ss in (s' ∷ ss', now ++ later)

pub umtp_session_process : ApduConf → Sessions → ℕ → Sessions × List Event
unfolding process_sessions
umtp_session_process conf st milliseconds =
    let (ss, events) = process_sessions conf milliseconds st.session in
    (record st { session = ss }, events)

-- The static variables as the program starts: identifiers begin at 1, and the table is zero.
abbrev pub blank : Session
blank = record {
  session_id = 0;
  waiting = false;
  retry = 0;
  timer = 0;
  timeout = none;
  dest = record { addr_len = 0; addr = replicate 7 0 };
  pdu = replicate 2049 0;
  pdu_len = 0;
  data_ptr = 0;
}

pub initial : Sessions
initial = record { session_id = 1; session = replicate max_umtp_session blank }
