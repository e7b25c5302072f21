-- ===== src/Examples/Finish.antt =====
-- The whole run of simple_client.c.
use umtp.Base.{
  ℕ, suc, ◌+◌, ◌<◌, ◌≤◌, ◌≡◌, refl, ap, ◌∙◌, true, false, Option, none, some, List, [], ◌∷◌, ◌++◌,
  arith, length, ◌>>=◌, ◌==◌, if◌then◌else◌, get_elem?, u16_mod,
}
use umtp.Addr.{UmtpAddr}
use umtp.Errno.{Errno}
use umtp.Session.{Session, Sessions, max_umtp_session, umtp_get_session}
use umtp.Session.Count.{used}
use umtp.Session.Valid.{IsValid}
use umtp.Service.{rsp}
use umtp.Npdu.{Umtp, called}
use umtp.Stack.Grant.{allocated}
use umtp.Examples.{
  Host, Exit, failed, returned, simple_client, quiet_handler, client_rsp, server_addr, wait_of,
  wait_loop, client_requests, client_main,
}
use umtp.Examples.Launch.{Granted, Registrable, launch-sync}
use umtp.Examples.Client.{Unused, Waiting, hellos, after_hellos, send-loop}
use umtp.Examples.Wait.{
  wait_of-hellos, wait_of-rsp, idle, wait-idle, wait-ends, response_arrives,
  response_arrives-closes, element-mem, waiting-session,
}

-- On a system that grants what it is asked for, with the service's structure among the static
-- variables and its identifier not in use, with a valid table that has room for ten more sessions,
-- and while no other thread takes a step between the submissions: `main` of the client sends ten
-- requests to the server's address, in ten different sessions that were not in use. Then it waits, as
-- long as nothing arrives; when a response to the request number `k` arrives, with data, it returns:
-- its response handler has been called once, with that session, which waited, and with the data, and
-- the session is closed, while the others are as they were.
pub client_main-returns :
    (n : Errno) (fuel : ℕ) (h : Host) (statics : Umtp) (service s_addr : ℕ) (ps : List ℕ)
    (sleeps : ℕ → List (Sessions → Sessions)) (k j : ℕ) (src : UmtpAddr) (bs : List ℕ)
    → Granted h
    → Registrable statics.services fuel service quiet_handler ps
    → statics.services.types service ≡ simple_client
    → IsValid statics.sessions
    → used statics.sessions.session + 10 ≤ max_umtp_session
    → wait_of statics.effects ≡ true
    → k < 10
    → 0 < length bs
    → length bs + 5 < u16_mod
    → (ids : List ℕ) × (id : ℕ) × (st : Sessions) × (session : Session) × (u' : Umtp) × (length ids
        ≡ 10)
      × (get_elem? ids k ≡ some id)
      × Unused statics.sessions ids
      × Waiting st ids
      × (let run = client_main n fuel h statics service s_addr (λ k u. u) sleeps in
          (run (idle j) ≡ none)
          × (run (idle j ++ response_arrives n (suc fuel) src id bs ∷ []) ≡ some (returned u')))
      × (umtp_get_session st id ≡ some session)
      × (u'.effects
          ≡ (statics.effects ++ hellos (server_addr s_addr) ids)
            ++ called (rsp client_rsp src (some session) bs (length bs)) ∷ [])
      × ((i : ℕ)
          → umtp_get_session u'.sessions i ≡ (if i == id then none else umtp_get_session st i))
unfolding client_main client_requests
client_main-returns n fuel h statics service s_addr ps sleeps k j src bs g r type v room waits few
      some_data short =
    let (out, sv, takes, registered, types, launched) =
      launch-sync n fuel h statics 10000 service quiet_handler ps g r in
    let u : Umtp = record (allocated statics g.self true out sv) { running = true } in
    let dst : UmtpAddr = server_addr s_addr in
    let (ids, st, sends, ten, o) =
      send-loop n sleeps dst 10 u out (record { sync = refl; link = refl }) takes v room in
    let (id, found, there) = element-mem ids k (omega (arith, ten, few)) in
    let (session, opened, waiting) = waiting-session st ids id o.waiting there in
    let u1 : Umtp = after_hellos u dst ids st in
    let arrives : Umtp → Umtp = response_arrives n (suc fuel) src id bs in
    let (effects, closed) =
      response_arrives-closes n fuel u1 src id bs service ps refl o.valid registered r.enough
        (ap (λ ts. ts service) types ∙ type) some_data short in
    let still : wait_of u1.effects ≡ true = wait_of-hellos statics.effects dst ids waits in
    let ends : wait_of (arrives u1).effects ≡ false =
      ap wait_of effects ∙ wait_of-rsp u1.effects src (umtp_get_session st id) bs (length bs) in
    let run : List (Umtp → Umtp) → Option Exit =
      λ sleeping. wait_loop sleeping u1 >>= λ u'. some (returned u') in
    let begun : (sleeping : List (Umtp → Umtp))
        → client_main n fuel h statics service s_addr (λ k u. u) sleeps sleeping ≡ run sleeping =
      λ sleeping.
        ap (λ l. l >>= client_requests n (λ k u. u) sleeps sleeping dst) launched
        ∙ ap
            (λ r. r >>= λ r.
              let waited = wait_loop sleeping r.1 >>= λ u'. some (returned u') in
              if r.0 then waited else some failed)
            sends in
    (
      ids,
      id,
      st,
      session,
      arrives u1,
      ten,
      found,
      o.unused,
      o.waiting,
      (
        begun (idle j) ∙ ap (λ w. w >>= λ u'. some (returned u')) (wait-idle j u1 still),
        begun (idle j ++ arrives ∷ [])
            ∙ ap (λ w. w >>= λ u'. some (returned u')) (wait-ends j arrives u1 still ends),
      ),
      opened,
      effects ∙ ap (λ s. u1.effects ++ called (rsp client_rsp src s bs (length bs)) ∷ []) opened,
      closed,
    )
