-- ===== src/Service/Tests.antt =====
-- Runs of the registry, and its theorems at a registry of one service.
use umtp.Base.{ℕ, ◌≡◌, ◌==◌, if◌then◌else◌, refl, some, none, List, [], ◌∷◌, arith}
use umtp.Addr.{UmtpAddr}
use umtp.Errno.{Errno, negative}
use umtp.LinkedList.{init_list_head, list_add, Links}
use umtp.LinkedList.Insert.{init_list_head-IsList, list_add-IsList}
use umtp.Service.{ServiceType, ReqHandler, Services, service_type_register, service_handler}
use umtp.Service.Registry.{Registered}
use umtp.Service.Dispatch.{service_handler-service_type_register}

abbrev errno : Errno
errno = record {
  einval = 22;
  enoent = 2;
  eexist = 17;
  eproto = 71;
  enomem = 12;
  etimedout = 110;
  ebadf = 9;
}

abbrev echo : ReqHandler
echo src id request len = (0, request)

-- The structure at address p has the identifier p / 10.
abbrev echo_types : ℕ → ServiceType
echo_types p = record {
  id = if p == 20 then 2 else if p == 30 then 3 else 4;
  req_handler = some echo;
  rsp_handler = none;
  error_handler = none;
  timeout_handler = none;
}

abbrev null_links : Links
null_links = record { next = λ p. 0; prev = λ p. 0 }

abbrev one : Services
one = record {
  service_type_head = 10;
  links = list_add (init_list_head null_links 10) 20 10;
  types = echo_types;
}

abbrev one-Registered : Registered one (20 ∷ [])
one-Registered = (list_add-IsList (init_list_head-IsList null_links 10) 20 refl).0

service_handler-service_type_register_example :
    (sv' : Services) × (service_type_register errno 2 one (some 30) ≡ some (0, sv'))
    × ((src : UmtpAddr) (id : ℕ) (request : List ℕ) (len : ℕ)
        → service_handler errno 3 sv' src id request len ≡ (
            if 3 == id
            then some (if len == 0 then (negative 22, []) else (0, request))
            else service_handler errno 2 one src id request len))
service_handler-service_type_register_example =
    service_handler-service_type_register errno one (20 ∷ []) 2 30 echo one-Registered (omega arith)
      refl refl refl
