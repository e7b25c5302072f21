-- ===== src/Service.antt =====
-- core/service.c and include/service.h: the registry of services, an intrusive list of the
-- structures that the program supplies, and the dispatch to their handlers. A service structure
-- begins with its link, so both have one address. The request handler is supplied by the program:
-- a function that returns its status and the bytes that it writes for the response. The other
-- handlers return nothing: a call of one is an event that names the handler.
pub mod Registry
pub mod Dispatch
mod Tests
use umtp.Base.{
  ℕ, zero, suc, Bool, true, false, Option, none, some, List, [], ◌∷◌, ◌==◌, if◌then◌else◌, ◌>>=◌,
}
use umtp.Addr.{UmtpAddr}
use umtp.Errno.{Errno, negative}
use umtp.LinkedList.{Links, list_add, list_del}
use umtp.Session.{Session}

-- The arguments are the source, the service, the data and its length.
abbrev pub ReqHandler : Type 0
ReqHandler = UmtpAddr → ℕ → List ℕ → ℕ → ℕ × List ℕ

pub record ServiceType : Type 0 where
  pub id : ℕ
  pub req_handler : Option ReqHandler
  pub rsp_handler : Option ℕ
  pub error_handler : Option ℕ
  pub timeout_handler : Option ℕ

-- `service_type_head` is the address of the static list head.
pub record Services : Type 0 where
  pub service_type_head : ℕ
  pub links : Links
  pub types : ℕ → ServiceType

pub data Call : Type 0 where
  rsp : ℕ → UmtpAddr → Option Session → List ℕ → ℕ → Call
  error : ℕ → UmtpAddr → ℕ → Option Session → Call
  timeout : ℕ → UmtpAddr → ℕ → List ℕ → ℕ → Call

-- The loop of `service_type_get` on fuel: the outer `none` means that the fuel ran out, the inner
-- one is NULL.
get_from : ℕ → Services → ℕ → ℕ → Option (Option ℕ)
get_from zero sv pos id = none
get_from (suc fuel) sv pos id =
    let rest = get_from fuel sv (sv.links.next pos) id in
    if pos == sv.service_type_head
    then some none
    else if (sv.types pos).id == id
    then some (some pos)
    else rest

pub service_type_get : ℕ → Services → ℕ → Option (Option ℕ)
unfolding get_from
service_type_get fuel sv id = get_from fuel sv (sv.links.next sv.service_type_head) id

-- A pointer to a structure is NULL, or its address.
register_new : Errno → Services → ℕ → Option ℕ → ℕ × Services
register_new n sv type none = (0, record sv { links = list_add sv.links type sv.service_type_head })
register_new n sv type (some other) = (negative n.eexist, sv)

register_type : Errno → ℕ → Services → ℕ → Option ReqHandler → Option (ℕ × Services)
unfolding register_new
register_type n fuel sv type none = some (negative n.einval, sv)
register_type n fuel sv type (some handler) = do
  tmp ← service_type_get fuel sv (sv.types type).id
  some (register_new n sv type tmp)

pub service_type_register : Errno → ℕ → Services → Option ℕ → Option (ℕ × Services)
unfolding register_type
service_type_register n fuel sv none = some (negative n.einval, sv)
service_type_register n fuel sv (some type) =
    register_type n fuel sv type (sv.types type).req_handler

pub service_type_unregister : Services → Option ℕ → Services
service_type_unregister sv none = sv
service_type_unregister sv (some type) = record sv { links = list_del sv.links type }

-- The status and the response bytes of the request handler; 0 and none if it is NULL.
pub call_req : Option ReqHandler → UmtpAddr → ℕ → List ℕ → ℕ → ℕ × List ℕ
call_req none src service_id request data_len = (0, [])
call_req (some handler) src service_id request data_len = handler src service_id request data_len

pub handle_found : Errno → Services → Option ℕ → UmtpAddr → ℕ → List ℕ → ℕ → ℕ × List ℕ
unfolding call_req
handle_found n sv none src service_id request data_len = (negative n.enoent, [])
handle_found n sv (some type) src service_id request data_len =
    call_req (sv.types type).req_handler src service_id request data_len

-- `data` is a pointer into a buffer here, and so never NULL; `data_len` is a `uint32_t`.
pub service_handler : Errno → ℕ → Services → UmtpAddr → ℕ → List ℕ → ℕ → Option (ℕ × List ℕ)
unfolding handle_found
service_handler n fuel sv src service_id request data_len =
    if data_len == 0 then some (negative n.einval, []) else do
      type ← service_type_get fuel sv service_id
      some (handle_found n sv type src service_id request data_len)

-- A call is left out if no service has the identifier, or if its handler is NULL.
pub call_rsp : Services → Option ℕ → UmtpAddr → Option Session → List ℕ → ℕ → List Call
call_rsp sv none src session response data_len = []
call_rsp sv (some type) src session response data_len = elim (sv.types type).rsp_handler [
  | none ↦ []
  | some f ↦ rsp f src session response data_len ∷ []
]

pub service_rsp_handler :
    ℕ → Services → UmtpAddr → ℕ → Option Session → List ℕ → ℕ → Option (List Call)
unfolding call_rsp
service_rsp_handler fuel sv src service_id session response data_len =
    if data_len == 0 then some [] else do
      type ← service_type_get fuel sv service_id
      some (call_rsp sv type src session response data_len)

pub call_error : Services → Option ℕ → UmtpAddr → ℕ → Option Session → List Call
call_error sv none src status session = []
call_error sv (some type) src status session = elim (sv.types type).error_handler [
  | none ↦ []
  | some f ↦ error f src status session ∷ []
]

pub service_error_handler : ℕ → Services → UmtpAddr → ℕ → ℕ → Option Session → Option (List Call)
unfolding call_error
service_error_handler fuel sv src service_id status session = do
  type ← service_type_get fuel sv service_id
  some (call_error sv type src status session)

pub call_timeout : Services → Option ℕ → UmtpAddr → ℕ → List ℕ → ℕ → List Call
call_timeout sv none dst service_id request len = []
call_timeout sv (some type) dst service_id request len = elim (sv.types type).timeout_handler [
  | none ↦ []
  | some f ↦ timeout f dst service_id request len ∷ []
]

pub service_timeout_handler : ℕ → Services → UmtpAddr → ℕ → List ℕ → ℕ → Option (List Call)
unfolding call_timeout
service_timeout_handler fuel sv dst service_id request len = do
  type ← service_type_get fuel sv service_id
  some (call_timeout sv type dst service_id request len)
