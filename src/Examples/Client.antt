-- ===== src/Examples/Client.antt =====
-- The program of simple_client.c: its ten requests, and the response that ends it.
use umtp.Base.{
  ℕ, zero, suc, ◌+◌, ◌≤◌, ◌≡◌, inl, inr, refl, sym, ap, ◌∙◌, Bool-cases, Bool, not, ltb, ◌^◌, true,
  false, Option, none, some, List, [], ◌∷◌, ◌++◌, arith, length, ◌>>=◌, ◌==◌, eq_of_==,
  if◌then◌else◌,
}
use mathlib.Core.List.{append-nil, append_assoc}
use umtp.Addr.{UmtpAddr}
use umtp.Errno.{Errno}
use umtp.LinkedList.Chain.{mem}
use umtp.Session.{Session, Sessions, max_umtp_session, umtp_get_session}
use umtp.Session.Count.{used}
use umtp.Session.Valid.{IsValid}
use umtp.Npdu.{Umtp, SendData, Effect, sent}
use umtp.Stack.Grant.{send_message-submit}
use umtp.Apdu.Wire.{frame, request_pdu}
use umtp.Apdu.Submit.{IsSync, IsRequest}
use umtp.Apdu.Open.{OneMore, apdu_submit-OneMore}
use umtp.Examples.{send_data, hello, send_loop}
use umtp.Examples.Launch.{Takes}

-- The frame of the client's request in a session.
abbrev pub hello_frame : (session_id : ℕ) → List ℕ
hello_frame id = frame (request_pdu 1 id hello)

abbrev pub hellos : UmtpAddr → List ℕ → List Effect
hellos dst [] = []
hellos dst (id ∷ ids) = sent dst (hello_frame id) (length (hello_frame id)) ∷ hellos dst ids

-- The identifiers are different, and none of them is in use.
abbrev pub Unused : Sessions → List ℕ → Type 0
Unused st [] = Unit {0}
Unused st (id ∷ ids) = (umtp_get_session st id ≡ none) × (mem id ids ≡ false) × Unused st ids

-- A session waits under each identifier.
abbrev pub Waiting : Sessions → List ℕ → Type 0
Waiting st [] = Unit {0}
Waiting st (id ∷ ids) =
    ((s : Session) × (umtp_get_session st id ≡ some s) × (s.waiting ≡ true)) × Waiting st ids

-- An identifier in use is none of the unused ones.
used-out :
    (st : Sessions) (ids : List ℕ) (id : ℕ) (s : Session)
    → umtp_get_session st id ≡ some s
    → Unused st ids
    → mem id ids ≡ false
used-out st [] id s found u = refl
used-out st (j ∷ ids) id s found (none_here, new, u) = elim (Bool-cases (j == id)) [
  | inl e ↦ let same : j ≡ id = eq_of_== j id e in cc
  | inr e ↦ rw e (used-out st ids id s found u)
]

OneMore-Unused :
    (before after : Sessions) (id : ℕ) (ids : List ℕ)
    → OneMore before after id
    → Unused after ids
    → Unused before ids
OneMore-Unused before after id [] o u = tt
OneMore-Unused before after id (j ∷ ids) o (none_here, new, u) =
    let out = used-out after (j ∷ ids) id o.session o.opened (none_here, new, u) in
    (
      sym (o.others j (ground (arith, out))) ∙ none_here,
      new,
      OneMore-Unused before after id ids o u,
    )

send_data-IsRequest : IsRequest send_data
send_data-IsRequest = record {
  is_confirmed = refl;
  whole = refl;
  fits = omega arith;
  byte = omega arith;
}

-- The stack after the requests in the sessions `ids`, with the table `st`.
abbrev pub after_hellos : Umtp → UmtpAddr → List ℕ → Sessions → Umtp
after_hellos u dst ids st = record u { sessions = st; effects = u.effects ++ hellos dst ids }

-- What is known of the table after the requests.
pub record Opened (before after : Sessions) (ids : List ℕ) : Type 0 where
  pub unused : Unused before ids
  pub waiting : Waiting after ids
  pub others : (j : ℕ) → mem j ids ≡ false → umtp_get_session after j ≡ umtp_get_session before j
  pub valid : IsValid after

pub send-loop :
    (n : Errno) (sleeps : ℕ → List (Sessions → Sessions)) (dst : UmtpAddr) (k : ℕ) (u : Umtp)
    (out : SendData)
    → IsSync u out
    → Takes out
    → IsValid u.sessions
    → used u.sessions.session + k ≤ max_umtp_session
    → (ids : List ℕ) × (st : Sessions) × (send_loop n (λ k u. u) sleeps dst k u
        ≡ some (true, after_hellos u dst ids st))
      × (length ids ≡ k)
      × Opened u.sessions st ids
unfolding send_loop
send-loop n sleeps dst zero u out i takes v room = (
  [],
  u.sessions,
  ap (λ e. some (true, record u { effects = e })) (sym (append-nil u.effects)),
  refl,
  record { unused = tt; waiting = tt; others = λ j e. refl; valid = v },
)
send-loop n sleeps dst (suc k) u out i takes v room =
    let (id, st, submits, o) =
      apdu_submit-OneMore n (sleeps k) u out dst send_data i send_data-IsRequest v (omega arith) in
    let step : ℕ × Umtp → Option (Bool × Umtp) = λ r.
      let rest = send_loop n (λ k u. u) sleeps dst k r.1 in
      if not (ltb r.0 (2 ^ 31)) then some (false, r.1) else rest in
    let u1 : Umtp = after_hellos u dst (id ∷ []) st in
    let (ids, st', sends, all, more) =
      send-loop n sleeps dst k u1 out (record { sync = i.sync; link = i.link }) takes o.valid
        (omega (arith, o.count, room)) in
    let out_of_rest = used-out st ids id o.session o.opened more.unused in
    (
      id ∷ ids,
      st',
      ap (λ r. r >>= step) (send_message-submit n (sleeps k) u dst (some send_data) ∙ submits)
          ∙ ap (λ ret. step (ret, u1)) (takes dst (hello_frame id) (length (hello_frame id)))
          ∙ sends
          ∙ ap (λ e. some (true, record u { sessions = st'; effects = e }))
              (append_assoc u.effects (hellos dst (id ∷ [])) (hellos dst ids)),
      ap suc all,
      record {
        unused = (o.unused, out_of_rest, OneMore-Unused u.sessions st id ids o more.unused);
        waiting = ((o.session, more.others id out_of_rest ∙ o.opened, o.waits), more.waiting);
        others = λ j e. more.others j (ground (arith, e)) ∙ o.others j (ground (arith, e));
        valid = more.valid;
      },
    )
