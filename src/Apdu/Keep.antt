-- ===== src/Apdu/Keep.antt =====
-- The valid stack, and that sending and submitting leave it valid.
use umtp.Base.{
  ℕ, ◌%◌, ◌+◌, inl, inr, sym, Bool, true, false, Option, some, none, List, [], ◌∷◌, ◌++◌, ◌==◌,
  if◌then◌else◌, ◌>>=◌, Bool-cases, length, u16_mod,
}
use mathlib.Core.Path.{subst}
use umtp.Addr.{UmtpAddr}
use umtp.Errno.{Errno}
use umtp.Session.{Sessions, umtp_session_clear, umtp_session_set, umtp_free_session}
use umtp.Session.Valid.{IsValid}
use umtp.Session.Access.{session_set-IsValid, session_clear-IsValid}
use umtp.Session.Free.{free_session-Fresh}
use umtp.Service.{Call}
use umtp.Service.Registry.{Registered}
use umtp.Mpu.{Mpu, mpu_put_send}
use umtp.Mpu.Queue.{MpuIsValid}
use umtp.Mpu.Keep.{mpu_put_send-MpuIsValid, mpu_put_send-null}
use umtp.Npdu.{Umtp, Effect, called, npdu_send, writes, max_apdu}
use umtp.Npdu.Handler.{npdu_send-effects, writes-effects}
use umtp.Apdu.{
  ApduData, timeout_ptr, call_all, apdu_submit, encode_request, clear_session, acquire,
  submit_confirmed, umtp_apdu_submit, submit_rsp,
}
use umtp.Apdu.Submit.{apdu_submit-sync, apdu_submit-async}

abbrev pub UnitIsValid : Option Mpu → Type 0
UnitIsValid none = Unit {0}
UnitIsValid (some mpu) = MpuIsValid mpu

-- The table of sessions is valid, the structures `ps` are registered, and the unit, if there is one,
-- is valid.
pub record StackIsValid (ps : List ℕ) (u : Umtp) : Type 0 where
  pub sessions : IsValid u.sessions
  pub services : Registered u.services ps
  pub unit : UnitIsValid u.mpu

-- A handler that returned, and left a valid stack.
abbrev pub EndsValid : List ℕ → Option (ℕ × Umtp) → Type 0
EndsValid ps none = ⊥
EndsValid ps (some (ret, u)) = StackIsValid ps u

pub on_branches :
    (P : Option (ℕ × Umtp) → Type 0) (b : Bool) (x y : Option (ℕ × Umtp))
    → P x
    → P y
    → P (if b then x else y)
on_branches P true x y p q = p
on_branches P false x y p q = q

pub effects-StackIsValid :
    (ps : List ℕ) (u : Umtp) (e : List Effect)
    → StackIsValid ps u
    → StackIsValid ps (record u { effects = e })
effects-StackIsValid ps u e v = record {
  sessions = v.sessions;
  services = v.services;
  unit = v.unit;
}

pub sessions-StackIsValid :
    (ps : List ℕ) (u : Umtp) (st : Sessions)
    → StackIsValid ps u
    → IsValid st
    → StackIsValid ps (record u { sessions = st })
sessions-StackIsValid ps u st v w = record { sessions = w; services = v.services; unit = v.unit }

pub unit-StackIsValid :
    (ps : List ℕ) (u : Umtp) (mpu : Option Mpu)
    → StackIsValid ps u
    → UnitIsValid mpu
    → StackIsValid ps (record u { mpu = mpu })
unit-StackIsValid ps u mpu v w = record { sessions = v.sessions; services = v.services; unit = w }

pub npdu_send-StackIsValid :
    (n : Errno) (ps : List ℕ) (u : Umtp) (dst : UmtpAddr) (bs : List ℕ) (len : ℕ)
    → StackIsValid ps u
    → StackIsValid ps (npdu_send n u dst bs len).1
npdu_send-StackIsValid n ps u dst bs len v =
    let (e, same) = npdu_send-effects n u dst bs len in
    subst (StackIsValid ps) (sym same) (effects-StackIsValid ps u e v)

pub writes-StackIsValid :
    (ps : List ℕ) (size len : ℕ) (u : Umtp)
    → StackIsValid ps u
    → StackIsValid ps (writes size len u)
writes-StackIsValid ps size len u v =
    let (e, same) = writes-effects size len u in
    subst (StackIsValid ps) (sym same) (effects-StackIsValid ps u e v)

pub call_all-StackIsValid :
    (ps : List ℕ) (u : Umtp) (calls : List Call)
    → StackIsValid ps u
    → StackIsValid ps (call_all u calls)
call_all-StackIsValid ps u [] v = v
call_all-StackIsValid ps u (c ∷ cs) v =
    call_all-StackIsValid ps (record u { effects = u.effects ++ called c ∷ [] }) cs
      (effects-StackIsValid ps u (u.effects ++ called c ∷ []) v)

pub put_send-UnitIsValid :
    (n : Errno) (mpu : Option Mpu) (dst : UmtpAddr) (data_ptr : ℕ) (msg : List ℕ) (len : ℕ)
    → UnitIsValid mpu
    → UnitIsValid (mpu_put_send n mpu dst data_ptr msg len).1
put_send-UnitIsValid n none dst data_ptr msg len v =
    subst (λ r. UnitIsValid r.1) (sym (mpu_put_send-null n dst data_ptr msg len)) tt
put_send-UnitIsValid n (some mpu) dst data_ptr msg len v =
    let (ret, mpu', put, v') = mpu_put_send-MpuIsValid n mpu dst data_ptr msg len v in
    subst (λ r. UnitIsValid r.1) (sym put) v'

pub apdu_submit-StackIsValid :
    (n : Errno) (ps : List ℕ) (u : Umtp) (dst : UmtpAddr) (pdu : List ℕ) (len : ℕ)
    → StackIsValid ps u
    → StackIsValid ps (apdu_submit n u dst pdu len).1
apdu_submit-StackIsValid n ps u dst pdu len v = elim (Bool-cases u.sync_mode) [
  | inl sync ↦
      subst (λ r. StackIsValid ps r.1) (sym (apdu_submit-sync n u dst pdu len sync))
        (npdu_send-StackIsValid n ps u dst pdu len v)
  | inr async ↦
      subst (λ r. StackIsValid ps r.1) (sym (apdu_submit-async n u dst pdu len async))
        (unit-StackIsValid ps u _ v (put_send-UnitIsValid n u.mpu dst u.self pdu len v.unit))
]

pub submit_rsp-StackIsValid :
    (n : Errno) (ps : List ℕ) (u : Umtp) (src : UmtpAddr) (rsp : List ℕ)
    → StackIsValid ps u
    → StackIsValid ps (submit_rsp n u src rsp).1
submit_rsp-StackIsValid n ps u src rsp v =
    apdu_submit-StackIsValid n ps (writes max_apdu (length rsp) u) src rsp (length rsp % u16_mod)
      (writes-StackIsValid ps max_apdu (length rsp) u v)

pub clear_session-StackIsValid :
    (ps : List ℕ) (u : Umtp) (apdu_flag session_id : ℕ)
    → StackIsValid ps u
    → StackIsValid ps (clear_session u apdu_flag session_id)
clear_session-StackIsValid ps u apdu_flag session_id v = elim (Bool-cases (apdu_flag % 2 == 1)) [
  | inl e ↦ rw e (
      sessions-StackIsValid ps u (umtp_session_clear u.sessions session_id) v
        (session_clear-IsValid v.sessions session_id))
  | inr e ↦ rw e v
]

-- A submission waits, or leaves a valid stack.
abbrev pub WhenEnds : List ℕ → Option (ℕ × Umtp) → Type 0
WhenEnds ps none = Unit {0}
WhenEnds ps (some (ret, u)) = StackIsValid ps u

module _ (n : Errno) (ps : List ℕ) (u : Umtp) (v : StackIsValid ps u) (dst : UmtpAddr)
    (d : ApduData) where
  abbrev confirmed_after : Option (ℕ × Sessions) → Option (ℕ × Umtp)
  confirmed_after r = (r >>= λ got. if got.0 == 0 then none else some got) >>= λ got.
      some (submit_confirmed n u dst d got)

  got-WhenEnds :
      (b : Bool) (id : ℕ) (st : Sessions)
      → IsValid st
      → WhenEnds ps
          ((if b then none else some (id, st)) >>= λ got. some (submit_confirmed n u dst d got))
  got-WhenEnds true id st w = tt
  got-WhenEnds false id st w =
      let pdu : List ℕ = encode_request d id in
      let st' : Sessions =
        umtp_session_set u.conf st id (some timeout_ptr) u.self dst pdu (4 + d.data_len) in
      apdu_submit-StackIsValid n ps (writes max_apdu (4 + d.data_len) (record u { sessions = st' }))
        dst pdu (4 + d.data_len)
        (writes-StackIsValid ps max_apdu (4 + d.data_len) (record u { sessions = st' })
          (sessions-StackIsValid ps u st' v
            (session_set-IsValid w u.conf id (some timeout_ptr) u.self dst pdu (4 + d.data_len))))

  confirmed-WhenEnds : WhenEnds ps (confirmed_after (umtp_free_session u.conf u.sessions))
  confirmed-WhenEnds = elim (free_session-Fresh u.conf v.sessions) [
    | inl (no_free, e) ↦
        subst (λ r. WhenEnds ps (confirmed_after r)) (sym e)
          (got-WhenEnds true 0 u.sessions v.sessions)
    | inr (id, st, s, e, fresh) ↦
        subst (λ r. WhenEnds ps (confirmed_after r)) (sym e) (got-WhenEnds (id == 0) id st fresh.5)
  ]

pub submit-WhenEnds :
    (n : Errno) (ps : List ℕ) (u : Umtp) (dst : UmtpAddr) (d : Option ApduData)
    → StackIsValid ps u
    → WhenEnds ps (umtp_apdu_submit n [] u dst d)
unfolding umtp_apdu_submit acquire
submit-WhenEnds n ps u dst none v = v
submit-WhenEnds n ps u dst (some d) v =
    on_branches (WhenEnds ps) d.confirmed _ _ (confirmed-WhenEnds n ps u v dst d) (
      apdu_submit-StackIsValid n ps (writes max_apdu (3 + d.data_len) u) dst (encode_request d 0)
        (3 + d.data_len) (writes-StackIsValid ps max_apdu (3 + d.data_len) u v))
