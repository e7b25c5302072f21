-- ===== src/Examples/Server.antt =====
-- The program of simple_server.c with the requests that reach it.
use umtp.Base.{
  ℕ, suc, ◌+◌, ◌<◌, ◌≤◌, ◌≡◌, refl, ap, ◌∙◌, true, false, Option, none, some, List, [], ◌∷◌, ◌++◌,
  arith, length, ◌>>=◌, ◌==◌, if◌then◌else◌,
}
use umtp.Addr.{UmtpAddr}
use umtp.Errno.{Errno}
use umtp.Service.{Services}
use umtp.Service.Registry.{Registered, find}
use umtp.Service.Dispatch.{service_handler-some}
use umtp.Mpu.{max_mpu_data}
use umtp.Npdu.{Umtp, SendData}
use umtp.Stack.{drain}
use umtp.Stack.Grant.{allocated}
use umtp.Stack.Modes.{sent_all}
use umtp.Stack.Serve.{Request}
use umtp.Stack.Requests.{AllServed, receive_all, answers, drain-receive_all}
use umtp.Examples.{Host, simple_server, serve, greeting, no_port, serve_on, server_main}
use umtp.Examples.Launch.{Granted, Registrable, Takes, launch-async}

-- A request for the server's service: its source, its session, and its data.
pub record Greet : Type 0 where
  pub src : UmtpAddr
  pub session_id : ℕ
  pub bytes : List ℕ

-- The request with its answer, the greeting.
abbrev pub greeted : Greet → Request
greeted q = record {
  src = q.src;
  service = 1;
  session_id = q.session_id;
  bytes = q.bytes;
  ret = 0;
  response = greeting;
}

abbrev pub all_greeted : List Greet → List Request
all_greeted [] = []
all_greeted (q ∷ qs) = greeted q ∷ all_greeted qs

-- Each request has data, and fits a packet with its header of five bytes.
abbrev pub Fitting : List Greet → Type 0
Fitting [] = Unit {0}
Fitting (q ∷ qs) = ((0 < length q.bytes) × (5 + length q.bytes ≤ max_mpu_data)) × Fitting qs

module _ (n : Errno) (fuel : ℕ) (sv : Services) (service : ℕ) (ps : List ℕ) (out : SendData)
    (l : Registered sv (service ∷ ps)) (enough : length ps < fuel)
    (type : sv.types service ≡ simple_server) (takes : Takes out) where
  found : find sv.types 1 (service ∷ ps) ≡ some service
  found = ap (λ t. if t.id == 1 then some service else find sv.types 1 ps) type

  greeted-AllServed :
      (qs : List Greet) → Fitting qs → AllServed n (suc fuel) sv out (all_greeted qs)
  greeted-AllServed [] fit = tt
  greeted-AllServed (q ∷ qs) ((data_given, short), fit) = (
    record {
      handler = λ rest.
          service_handler-some n sv (service ∷ ps) (suc fuel) service serve q.src 1
            (q.bytes ++ rest) (length q.bytes) l (omega arith) found (ap (λ t. t.req_handler) type)
            data_given;
      fits = omega arith;
      answer_fits = omega arith;
      taken = takes _ _ _;
    },
    greeted-AllServed qs fit,
  )

length-all_greeted : (qs : List Greet) → length (all_greeted qs) ≡ length qs
length-all_greeted [] = refl
length-all_greeted (q ∷ qs) = ap suc (length-all_greeted qs)

-- What the task of the stack and the thread of its unit do in a second in which messages arrive.
abbrev pub serving : Errno → ℕ → List Greet → Umtp → Option Umtp
serving n fuel qs u =
    receive_all n fuel u (all_greeted qs) >>= λ u'. drain n (suc (length (all_greeted qs))) fuel u'

abbrev pub or_same : Umtp → Option Umtp → Umtp
or_same u none = u
or_same u (some u') = u'

-- On a system that grants what it is asked for, with the service's structure among the static
-- variables and its identifier not in use: `main` of the server starts a stack and sleeps on. In a
-- second in which at most sixteen confirmed requests for its service arrive, each with data and short
-- enough for a packet, receiving them and emptying the queues ends, and each request has been answered
-- by one frame to its source, with the greeting, in the order of the requests.
pub server_main-greets :
    (n : Errno) (fuel : ℕ) (h : Host) (statics : Umtp) (service : ℕ) (ps : List ℕ) (qs : List Greet)
    → Granted h
    → Registrable statics.services fuel service serve ps
    → statics.services.types service ≡ simple_server
    → Fitting qs
    → length qs ≤ 16
    → (u : Umtp) × (u' : Umtp) × (server_main n fuel h statics service [] ≡ some (some u))
      × (serving n (suc fuel) qs u ≡ some u')
      × (server_main n fuel h statics service ((λ u. or_same u (serving n (suc fuel) qs u)) ∷ [])
          ≡ some (some u'))
      × (u'.effects ≡ statics.effects ++ sent_all (answers (all_greeted qs)))
unfolding server_main
server_main-greets n fuel h statics service ps qs g r type fit few =
    let (out, sv, mpu, takes, registered, types, launched, run, none_in, none_out, room) =
      launch-async n fuel h statics no_port service serve ps g r in
    let (u', mpu', received, drained, run', none_in', none_out', sync) =
      drain-receive_all n (suc fuel) _ mpu out (all_greeted qs) refl refl refl run none_in none_out
        (omega (arith, room, length-all_greeted qs))
        (greeted-AllServed n fuel sv service ps out registered r.enough
          (ap (λ ts. ts service) types ∙ type) takes qs fit) in
    let served =
      ap (λ r. r >>= drain n (suc (length (all_greeted qs))) (suc fuel)) received ∙ drained in
    let u : Umtp = record (allocated statics g.self false out sv) {
      running = true;
      mpu = some mpu;
    } in
    let arrivals : Umtp → Umtp = λ u. or_same u (serving n (suc fuel) qs u) in
    let sleeping : List (Umtp → Umtp) → Option (Option Umtp) → Option (Option Umtp) =
      λ sleeps r. r >>= λ launched. some (launched >>= λ u. some (serve_on sleeps u)) in
    (
      u,
      _,
      ap (sleeping []) launched,
      served,
      ap (sleeping (arrivals ∷ [])) launched ∙ ap (λ r. some (some (or_same u r))) served,
      refl,
    )
