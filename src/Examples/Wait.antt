-- ===== src/Examples/Wait.antt =====
-- The wait of simple_client.c for a response, and the response.
use umtp.Base.{
  ℕ, zero, suc, ◌+◌, ◌<◌, ◌≡◌, refl, ap, ◌∙◌, true, false, Option, none, some, List, [], ◌∷◌, ◌++◌,
  arith, length, ◌>>=◌, Bool-cases, inl, inr, eq_of_==, ◌==◌, ==_refl, if◌then◌else◌, get_elem?,
  replicate, u16_mod,
}
use mathlib.Core.Path.{subst}
use umtp.Addr.{UmtpAddr}
use umtp.Errno.{Errno}
use umtp.LinkedList.Chain.{mem}
use umtp.Session.{Session, Sessions, umtp_get_session}
use umtp.Session.Valid.{IsValid}
use umtp.Service.{rsp}
use umtp.Service.Registry.{Registered, find}
use umtp.Npdu.{Umtp, Effect, sent, called, overrun}
use umtp.Apdu.Wire.{frame, response_pdu}
use umtp.Apdu.Handle.{npdu_handler-response_session}
use umtp.Stack.{receive}
use umtp.Stack.Grant.{receive-sync}
use umtp.Examples.{simple_client, client_rsp, wait_of, wait_loop}
use umtp.Examples.Client.{Waiting, hellos}
use umtp.Examples.Server.{or_same}

-- Requests do not end the wait.
pub wait_of-hellos :
    (es : List Effect) (dst : UmtpAddr) (ids : List ℕ)
    → wait_of es ≡ true
    → wait_of (es ++ hellos dst ids) ≡ true
wait_of-hellos [] dst [] e = refl
wait_of-hellos [] dst (id ∷ ids) e = wait_of-hellos [] dst ids e
wait_of-hellos (sent to bs len ∷ es) dst ids e = wait_of-hellos es dst ids e
wait_of-hellos (overrun size l ∷ es) dst ids e = wait_of-hellos es dst ids e
wait_of-hellos (called c ∷ es) dst ids e = ground (arith, wait_of-hellos es dst ids)

-- A call of the response handler does.
pub wait_of-rsp :
    (es : List Effect) (src : UmtpAddr) (session : Option Session) (bs : List ℕ) (len : ℕ)
    → wait_of (es ++ called (rsp client_rsp src session bs len) ∷ []) ≡ false
wait_of-rsp [] src session bs len = refl
wait_of-rsp (sent to frame l ∷ es) src session bs len = wait_of-rsp es src session bs len
wait_of-rsp (overrun size l ∷ es) src session bs len = wait_of-rsp es src session bs len
wait_of-rsp (called c ∷ es) src session bs len = ground (arith, wait_of-rsp es src session bs len)

-- Seconds in which nothing arrives.
abbrev pub idle : ℕ → List (Umtp → Umtp)
idle j = replicate j (λ u. u)

pub wait-idle : (j : ℕ) (u : Umtp) → wait_of u.effects ≡ true → wait_loop (idle j) u ≡ none
unfolding wait_loop
wait-idle zero u e = rw e refl
wait-idle (suc j) u e = rw e (wait-idle j u e)

pub wait-ends :
    (j : ℕ) (others : Umtp → Umtp) (u : Umtp)
    → wait_of u.effects ≡ true
    → wait_of (others u).effects ≡ false
    → wait_loop (idle j ++ others ∷ []) u ≡ some (others u)
unfolding wait_loop
wait-ends zero others u e e' = rw (e, e') refl
wait-ends (suc j) others u e e' = rw e (wait-ends j others u e e')

-- The stack's task receives a response to the client.
abbrev pub response_arrives : Errno → ℕ → UmtpAddr → (session_id : ℕ) → List ℕ → Umtp → Umtp
response_arrives n fuel src id bs u =
    or_same u
      (receive n fuel u src (frame (response_pdu 1 id bs)) (length (frame (response_pdu 1 id bs))))

pub response_arrives-closes :
    (n : Errno) (fuel : ℕ) (u : Umtp) (src : UmtpAddr) (id : ℕ) (bs : List ℕ) (service : ℕ)
    (ps : List ℕ)
    → u.sync_mode ≡ true
    → IsValid u.sessions
    → Registered u.services (service ∷ ps)
    → length ps < fuel
    → u.services.types service ≡ simple_client
    → 0 < length bs
    → length bs + 5 < u16_mod
    → let u' = response_arrives n (suc fuel) src id bs u in
      (u'.effects
        ≡ u.effects
          ++ called (rsp client_rsp src (umtp_get_session u.sessions id) bs (length bs)) ∷ [])
      × ((i : ℕ)
          → umtp_get_session u'.sessions i
            ≡ (if i == id then none else umtp_get_session u.sessions i))
response_arrives-closes n fuel u src id bs service ps sync v l enough type some_data short =
    let (u', handled, effects, closed, valid) =
      npdu_handler-response_session n (suc fuel) u src 1 id bs (service ∷ ps) service client_rsp v l
        (omega arith)
        (ap (λ t. if t.id == 1 then some service else find u.services.types 1 ps) type)
        (ap (λ t. t.rsp_handler) type) some_data (omega arith) in
    let received : response_arrives n (suc fuel) src id bs u ≡ u' = ap (or_same u) (
      receive-sync n (suc fuel) u src (frame (response_pdu 1 id bs))
        (length (frame (response_pdu 1 id bs))) sync (omega arith)
      ∙ ap (λ st. st >>= λ r. some r.1) handled) in
    (
      ap (λ u. u.effects) received ∙ effects,
      λ i. ap (λ u. umtp_get_session u.sessions i) received ∙ closed i,
    )

pub element-mem :
    (ids : List ℕ) (k : ℕ)
    → k < length ids
    → (id : ℕ) × (get_elem? ids k ≡ some id) × (mem id ids ≡ true)
element-mem [] k lt = absurd (omega arith)
element-mem (x ∷ ids) zero lt = (x, refl, rw (==_refl x) refl)
element-mem (x ∷ ids) (suc k) lt =
    let (id, found, there) = element-mem ids k (omega arith) in (id, found, ground (arith, there))

pub waiting-session :
    (st : Sessions) (ids : List ℕ) (id : ℕ)
    → Waiting st ids
    → mem id ids ≡ true
    → (s : Session) × (umtp_get_session st id ≡ some s) × (s.waiting ≡ true)
waiting-session st [] id w m = cc
waiting-session st (x ∷ ids) id (here, w) m = elim (Bool-cases (x == id)) [
  | inl e ↦
      subst (λ i. (s : Session) × (umtp_get_session st i ≡ some s) × (s.waiting ≡ true))
        (eq_of_== x id e) here
  | inr e ↦ waiting-session st ids id w (rw e at m)
]
