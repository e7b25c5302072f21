-- ===== src/Stack/Requests/Tests.antt =====
-- Two requests at a stack with one service: one that it serves, and one for a service that is not
-- there.
use umtp.Base.{true, List, ℕ, ◌≡◌, refl, arith, some, none, [], ◌∷◌, ◌++◌}
use umtp.LinkedList.{init_list_head, list_add}
use umtp.LinkedList.Insert.{init_list_head-IsList, list_add-IsList}
use umtp.Service.{ServiceType, ReqHandler, Services}
use umtp.Service.Registry.{Registered}
use umtp.Service.Dispatch.{service_handler-some, service_handler-none}
use umtp.Mpu.{mpu_task, Mpu, recv, send}
use umtp.Mpu.Drain.{queued}
use umtp.Npdu.{Umtp}
use umtp.Stack.{drain, stack_handlers}
use umtp.Stack.Carry.{Running}
use umtp.Stack.Modes.{sync_of, sent_all}
use umtp.Stack.Serve.{Request, IsServed}
use umtp.Stack.Requests.{receive_all, answers, drain-receive_all}
use umtp.Stack.Thread.{Wait, requests, nothing, waits_of, mpu_task-answers}
use umtp.Stack.Tests.{errno, peer, stack, unit, send_ok, null_links, unit-Running, ring-empty}

abbrev greet : ReqHandler
greet src id request len = (0, 8 ∷ 9 ∷ [])

abbrev one_type : ℕ → ServiceType
one_type p = record {
  id = 2;
  req_handler = some greet;
  rsp_handler = none;
  error_handler = none;
  timeout_handler = none;
}

abbrev services : Services
services = record {
  service_type_head = 10;
  links = list_add (init_list_head null_links 10) 20 10;
  types = one_type;
}

services-Registered : Registered services (20 ∷ [])
services-Registered = (list_add-IsList (init_list_head-IsList null_links 10) 20 refl).0

abbrev server : Umtp
server = record stack { services = services }

abbrev known : Request
known = record {
  src = peer;
  service = 2;
  session_id = 7;
  bytes = 1 ∷ 2 ∷ [];
  ret = 0;
  response = 8 ∷ 9 ∷ [];
}

-- -ENOENT.
abbrev unknown : Request
unknown = record {
  src = peer;
  service = 3;
  session_id = 9;
  bytes = 1 ∷ [];
  ret = 4294967294;
  response = [];
}

known-IsServed : IsServed errno 2 services send_ok known
known-IsServed = record {
  handler = λ rest.
      service_handler-some errno services (20 ∷ []) 2 20 greet peer 2 ((1 ∷ 2 ∷ []) ++ rest) 2
        services-Registered (omega arith) refl refl (omega arith);
  fits = omega arith;
  answer_fits = omega arith;
  taken = refl;
}

unknown-IsServed : IsServed errno 2 services send_ok unknown
unknown-IsServed = record {
  handler = λ rest.
      service_handler-none errno 2 services (20 ∷ []) peer 3 ((1 ∷ []) ++ rest) 1
        services-Registered (omega arith) refl (omega arith);
  fits = omega arith;
  answer_fits = omega arith;
  taken = refl;
}

drain-receive_all_example :
    (u' : Umtp) × (mpu' : Mpu) × (receive_all errno 2 server (known ∷ unknown ∷ []) ≡ some u')
    × (drain errno 3 2 u'
        ≡ some (record server {
          effects = sent_all (answers (known ∷ unknown ∷ []));
          mpu = some mpu';
        }))
    × Running mpu'
    × (queued recv mpu' ≡ [])
    × (queued send mpu' ≡ [])
    × (receive_all errno 2 (sync_of server) (known ∷ unknown ∷ [])
        ≡ some (record (sync_of server) { effects = sent_all (answers (known ∷ unknown ∷ [])) }))
drain-receive_all_example =
    drain-receive_all errno 2 server unit send_ok (known ∷ unknown ∷ []) refl refl refl unit-Running
      (ring-empty 100) (ring-empty 200) (omega arith) (known-IsServed, (unknown-IsServed, tt))

-- A batch of two, a second without a message, and one more.
abbrev waits : List Wait
waits = requests (known ∷ unknown ∷ []) ∷ nothing ∷ requests (known ∷ []) ∷ []

mpu_task-answers_example :
    (mpu' : Mpu) × (mpu_task errno 3
        (stack_handlers errno 2)
        (waits_of errno 2 waits)
        (unit, server)
      ≡ some (
        true,
        mpu',
        record server { effects = sent_all (answers (known ∷ unknown ∷ known ∷ [])) },
      ))
    × (queued recv mpu' ≡ [])
    × (queued send mpu' ≡ [])
mpu_task-answers_example =
    mpu_task-answers errno 3 2 server unit send_ok waits (omega arith) refl refl unit-Running
      (ring-empty 100) (ring-empty 200)
      ((omega arith, omega arith), ((omega arith, omega arith), tt))
      (known-IsServed, (unknown-IsServed, (known-IsServed, tt)))
