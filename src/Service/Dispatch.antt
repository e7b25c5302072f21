-- ===== src/Service/Dispatch.antt =====
-- What the dispatch functions call, on a registry whose structures are known.
use umtp.Base.{
  ℕ, suc, ◌<◌, ◌≡◌, refl, ap, ◌∙◌, false, Option, none, some, List, [], ◌∷◌, arith, length, ◌==◌,
  if◌then◌else◌, ==_ne, Bool-cases, inl, inr,
}
use umtp.Addr.{UmtpAddr}
use umtp.Errno.{Errno, negative}
use umtp.Session.{Session}
use umtp.LinkedList.Chain.{mem}
use umtp.Service.{
  ReqHandler, Services, call_req, call_rsp, call_error, rsp, error, handle_found, service_handler,
  service_rsp_handler, service_error_handler, service_timeout_handler, call_timeout,
  service_type_register,
}
use umtp.Service.Registry.{Registered, find, service_type_get-find, service_type_register-new}

-- `service_handler` on a registry with the structures `ps`.
pub service_handler-find :
    (n : Errno) (sv : Services) (ps : List ℕ) (fuel : ℕ) (src : UmtpAddr) (id : ℕ)
    (request : List ℕ) (len : ℕ)
    → Registered sv ps
    → length ps < fuel
    → service_handler n fuel sv src id request len
      ≡ some (
          if len == 0
          then (negative n.einval, [])
          else handle_found n sv (find sv.types id ps) src id request len)
unfolding service_handler
service_handler-find n sv ps fuel src id request len l enough = elim (Bool-cases (len == 0)) [
  | inl e ↦ rw e refl
  | inr e ↦ rw (e, service_type_get-find sv ps fuel id l enough) refl
]

handle_found-types :
    (n : Errno) (sv g : Services) (t : Option ℕ) (src : UmtpAddr) (id : ℕ) (request : List ℕ)
    (len : ℕ)
    → g.types ≡ sv.types
    → handle_found n g t src id request len ≡ handle_found n sv t src id request len
unfolding handle_found
handle_found-types n sv g none src id request len e = refl
handle_found-types n sv g (some p) src id request len e =
    ap (λ ts. call_req (ts p).req_handler src id request len) e

handle_found-front :
    (n : Errno) (sv : Services) (p : ℕ) (ps : List ℕ) (h : ReqHandler) (src : UmtpAddr) (id : ℕ)
    (request : List ℕ) (len : ℕ)
    → (sv.types p).req_handler ≡ some h
    → handle_found n sv (find sv.types id (p ∷ ps)) src id request len ≡ (
        if (sv.types p).id == id
        then h src id request len
        else handle_found n sv (find sv.types id ps) src id request len)
unfolding handle_found call_req
handle_found-front n sv p ps h src id request len e = elim (Bool-cases ((sv.types p).id == id)) [
  | inl q ↦ rw (q, e) refl
  | inr q ↦ rw q refl
]

service_handler-front :
    (n : Errno) (sv g : Services) (ps : List ℕ) (fuel p : ℕ) (h : ReqHandler)
    → Registered sv ps
    → Registered g (p ∷ ps)
    → length ps < fuel
    → g.types ≡ sv.types
    → (sv.types p).req_handler ≡ some h
    → (src : UmtpAddr) (id : ℕ) (request : List ℕ) (len : ℕ)
    → service_handler n (suc fuel) g src id request len ≡ (
        if (sv.types p).id == id
        then some (if len == 0 then (negative n.einval, []) else h src id request len)
        else service_handler n fuel sv src id request len)
service_handler-front n sv g ps fuel p h l l' enough same handler src id request len =
    service_handler-find n g (p ∷ ps) (suc fuel) src id request len l' (omega arith)
    ∙ ap (λ r. some (if len == 0 then (negative n.einval, []) else r)) found
    ∙ split
    ∙ rw (service_handler-find n sv ps fuel src id request len l enough) refl
  where
    found : handle_found n g (find g.types id (p ∷ ps)) src id request len ≡ (
        if (sv.types p).id == id
        then h src id request len
        else handle_found n sv (find sv.types id ps) src id request len)
    found =
        handle_found-types n sv g (find g.types id (p ∷ ps)) src id request len same
        ∙ ap (λ ts. handle_found n sv (find ts id (p ∷ ps)) src id request len) same
        ∙ handle_found-front n sv p ps h src id request len handler

    split :
        some (
          if len == 0
          then (negative n.einval, [])
          else if (sv.types p).id == id
          then h src id request len
          else handle_found n sv (find sv.types id ps) src id request len)
        ≡ (if (sv.types p).id == id
            then some (if len == 0 then (negative n.einval, []) else h src id request len)
            else some (
                if len == 0
                then (negative n.einval, [])
                else handle_found n sv (find sv.types id ps) src id request len))
    split = ground arith

-- With enough fuel, the registration of a new structure with a request handler and an identifier
-- that no registered structure has succeeds. A request is then handled by its handler if it names
-- that identifier and carries data, is refused with -EINVAL if it carries none, and is handled as
-- before if it names another identifier.
pub service_handler-service_type_register :
    (n : Errno) (sv : Services) (ps : List ℕ) (fuel p : ℕ) (h : ReqHandler)
    → Registered sv ps
    → length ps < fuel
    → mem p (sv.service_type_head ∷ ps) ≡ false
    → (sv.types p).req_handler ≡ some h
    → find sv.types (sv.types p).id ps ≡ none
    → (sv' : Services) × (service_type_register n fuel sv (some p) ≡ some (0, sv'))
      × ((src : UmtpAddr) (id : ℕ) (request : List ℕ) (len : ℕ)
          → service_handler n (suc fuel) sv' src id request len ≡ (
              if (sv.types p).id == id
              then some (if len == 0 then (negative n.einval, []) else h src id request len)
              else service_handler n fuel sv src id request len))
service_handler-service_type_register n sv ps fuel p h l enough new handler unused =
    let r = service_type_register-new n sv ps fuel p h l enough new handler unused in
    (
      r.0,
      r.1,
      λ src id request len.
          service_handler-front n sv r.0 ps fuel p h l r.2 enough r.3 handler src id request len,
    )

pub service_rsp_handler-find :
    (sv : Services) (ps : List ℕ) (fuel : ℕ) (src : UmtpAddr) (id : ℕ) (session : Option Session)
    (response : List ℕ) (len : ℕ)
    → Registered sv ps
    → length ps < fuel
    → service_rsp_handler fuel sv src id session response len
      ≡ some (if len == 0 then [] else call_rsp sv (find sv.types id ps) src session response len)
unfolding service_rsp_handler
service_rsp_handler-find sv ps fuel src id session response len l enough =
    elim (Bool-cases (len == 0)) [
      | inl e ↦ rw e refl
      | inr e ↦ rw (e, service_type_get-find sv ps fuel id l enough) refl
    ]

pub service_error_handler-find :
    (sv : Services) (ps : List ℕ) (fuel : ℕ) (src : UmtpAddr) (id status : ℕ)
    (session : Option Session)
    → Registered sv ps
    → length ps < fuel
    → service_error_handler fuel sv src id status session
      ≡ some (call_error sv (find sv.types id ps) src status session)
unfolding service_error_handler
service_error_handler-find sv ps fuel src id status session l enough =
    rw (service_type_get-find sv ps fuel id l enough) refl

pub service_timeout_handler-find :
    (sv : Services) (ps : List ℕ) (fuel : ℕ) (dst : UmtpAddr) (id : ℕ) (request : List ℕ) (len : ℕ)
    → Registered sv ps
    → length ps < fuel
    → service_timeout_handler fuel sv dst id request len
      ≡ some (call_timeout sv (find sv.types id ps) dst id request len)
unfolding service_timeout_handler
service_timeout_handler-find sv ps fuel dst id request len l enough =
    rw (service_type_get-find sv ps fuel id l enough) refl

-- The handler of the structure that was found, if it has one.
pub call_rsp-some :
    (sv : Services) (found : Option ℕ) (p f : ℕ) (src : UmtpAddr) (session : Option Session)
    (response : List ℕ) (len : ℕ)
    → found ≡ some p
    → (sv.types p).rsp_handler ≡ some f
    → call_rsp sv found src session response len ≡ rsp f src session response len ∷ []
unfolding call_rsp
call_rsp-some sv found p f src session response len e h = rw (e, call_rsp, h) refl

pub call_error-some :
    (sv : Services) (found : Option ℕ) (p f : ℕ) (src : UmtpAddr) (status : ℕ)
    (session : Option Session)
    → found ≡ some p
    → (sv.types p).error_handler ≡ some f
    → call_error sv found src status session ≡ error f src status session ∷ []
unfolding call_error
call_error-some sv found p f src status session e h = rw (e, call_error, h) refl

handle_found-some :
    (n : Errno) (sv : Services) (found : Option ℕ) (p : ℕ) (h : ReqHandler) (src : UmtpAddr)
    (id : ℕ) (request : List ℕ) (len : ℕ)
    → found ≡ some p
    → (sv.types p).req_handler ≡ some h
    → handle_found n sv found src id request len ≡ h src id request len
unfolding handle_found call_req
handle_found-some n sv found p h src id request len e e' = rw (e, handle_found, e') refl

-- A request with data for a registered service.
pub service_handler-some :
    (n : Errno) (sv : Services) (ps : List ℕ) (fuel p : ℕ) (h : ReqHandler) (src : UmtpAddr)
    (id : ℕ) (request : List ℕ) (len : ℕ)
    → Registered sv ps
    → length ps < fuel
    → find sv.types id ps ≡ some p
    → (sv.types p).req_handler ≡ some h
    → 0 < len
    → service_handler n fuel sv src id request len ≡ some (h src id request len)
service_handler-some n sv ps fuel p h src id request len l enough found e pos =
    service_handler-find n sv ps fuel src id request len l enough
    ∙ rw (==_ne len 0 (omega arith))
        (ap some (handle_found-some n sv (find sv.types id ps) p h src id request len found e))

-- Without a service of the identifier.
pub service_handler-none :
    (n : Errno) (fuel : ℕ) (sv : Services) (ps : List ℕ) (src : UmtpAddr) (id : ℕ)
    (request : List ℕ) (len : ℕ)
    → Registered sv ps
    → length ps < fuel
    → find sv.types id ps ≡ none
    → 0 < len
    → service_handler n fuel sv src id request len ≡ some (negative n.enoent, [])
unfolding handle_found
service_handler-none n fuel sv ps src id request len l enough missing pos =
    service_handler-find n sv ps fuel src id request len l enough
    ∙ rw (==_ne len 0 (omega arith))
        (ap (λ p. some (handle_found n sv p src id request len)) missing)
