-- ===== src/Service/Registry.antt =====
-- The registry of services as the list of the registered structures.
use umtp.Base.{
  ℕ, zero, suc, ◌<◌, ◌≡◌, refl, ap, true, false, Option, none, some, List, [], ◌∷◌, arith, length,
  ◌==◌, if◌then◌else◌,
}
use umtp.Errno.{Errno, negative}
use umtp.LinkedList.{list_add}
use umtp.LinkedList.Chain.{mem, Chain, IsList}
use umtp.LinkedList.Insert.{list_add-IsList}
use umtp.LinkedList.Delete.{erase, list_del-IsList}
use umtp.Service.{
  ServiceType, ReqHandler, Services, get_from, service_type_get, register_type, register_new,
  service_type_register, service_type_unregister,
}

-- The first registered structure with an identifier.
abbrev pub find : (ℕ → ServiceType) → ℕ → List ℕ → Option ℕ
find types id [] = none
find types id (p ∷ ps) = if (types p).id == id then some p else find types id ps

-- The structures `ps` are registered, newest first.
abbrev pub Registered : Services → List ℕ → Type 0
Registered sv ps = IsList sv.links sv.service_type_head ps

get_from-find :
    (fuel : ℕ) (sv : Services) (a id : ℕ) (ps : List ℕ)
    → Chain sv.links a ps sv.service_type_head
    → mem sv.service_type_head ps ≡ false
    → length ps < fuel
    → get_from fuel sv (sv.links.next a) id ≡ some (find sv.types id ps)
unfolding get_from
get_from-find zero sv a id ps c out enough = absurd (omega arith)
get_from-find (suc fuel) sv a id [] c out enough = ground arith
get_from-find (suc fuel) sv a id (p ∷ ps) (e, e', c) out enough =
    ground (arith, get_from-find fuel sv p id ps c)

-- `service_type_get` ends, within one round more than there are services, and finds the structure
-- that was registered last with the identifier, or NULL if there is none.
pub service_type_get-find :
    (sv : Services) (ps : List ℕ) (fuel id : ℕ)
    → Registered sv ps
    → length ps < fuel
    → service_type_get fuel sv id ≡ some (find sv.types id ps)
unfolding service_type_get
service_type_get-find sv ps fuel id l enough =
    get_from-find fuel sv sv.service_type_head id ps l.chain l.head_out enough

-- The result of `service_type_register` of the structure `p`: the status, and the registered
-- structures after it. `old` is the structure that has the identifier already.
abbrev pub after_register : Errno → List ℕ → ℕ → Option ReqHandler → Option ℕ → ℕ × List ℕ
after_register n ps p none old = (negative n.einval, ps)
after_register n ps p (some h) (some other) = (negative n.eexist, ps)
after_register n ps p (some h) none = (0, p ∷ ps)

register_new-cases :
    (n : Errno) (sv : Services) (ps : List ℕ) (p : ℕ) (h : ReqHandler) (old : Option ℕ)
    → Registered sv ps
    → mem p (sv.service_type_head ∷ ps) ≡ false
    → ((register_new n sv p old).0 ≡ (after_register n ps p (some h) old).0)
      × Registered (register_new n sv p old).1 (after_register n ps p (some h) old).1
      × ((register_new n sv p old).1.types ≡ sv.types)
unfolding register_new
register_new-cases n sv ps p h none l new = (refl, (list_add-IsList l p new).0, refl)
register_new-cases n sv ps p h (some other) l new = (refl, l, refl)

register_type-cases :
    (n : Errno) (sv : Services) (ps : List ℕ) (fuel p : ℕ) (h : Option ReqHandler)
    → Registered sv ps
    → length ps < fuel
    → mem p (sv.service_type_head ∷ ps) ≡ false
    → (sv' : Services) × (register_type n fuel sv p h
        ≡ some ((after_register n ps p h (find sv.types (sv.types p).id ps)).0, sv'))
      × Registered sv' (after_register n ps p h (find sv.types (sv.types p).id ps)).1
      × (sv'.types ≡ sv.types)
unfolding register_type
register_type-cases n sv ps fuel p none l enough new = (sv, refl, l, refl)
register_type-cases n sv ps fuel p (some h) l enough new =
    let old : Option ℕ = find sv.types (sv.types p).id ps in
    let r = register_new-cases n sv ps p h old l new in
    (
      (register_new n sv p old).1,
      rw (service_type_get-find sv ps fuel (sv.types p).id l enough)
          (ap (λ st. some (st, (register_new n sv p old).1)) r.0),
      r.1,
      r.2,
    )

-- With enough fuel, `service_type_register` of a structure that is not registered returns -EINVAL
-- if the structure has no request handler, -EEXIST if a registered one has its identifier, and
-- leaves the registry as it is; else it returns 0 and puts the structure before the others.
pub service_type_register-Registered :
    (n : Errno) (sv : Services) (ps : List ℕ) (fuel p : ℕ)
    → Registered sv ps
    → length ps < fuel
    → mem p (sv.service_type_head ∷ ps) ≡ false
    → let after =
        after_register n ps p (sv.types p).req_handler (find sv.types (sv.types p).id ps) in
      (sv' : Services) × (service_type_register n fuel sv (some p) ≡ some (after.0, sv'))
      × Registered sv' after.1
      × (sv'.types ≡ sv.types)
unfolding service_type_register
service_type_register-Registered n sv ps fuel p l enough new =
    register_type-cases n sv ps fuel p (sv.types p).req_handler l enough new

pub service_type_register-new :
    (n : Errno) (sv : Services) (ps : List ℕ) (fuel p : ℕ) (h : ReqHandler)
    → Registered sv ps
    → length ps < fuel
    → mem p (sv.service_type_head ∷ ps) ≡ false
    → (sv.types p).req_handler ≡ some h
    → find sv.types (sv.types p).id ps ≡ none
    → (sv' : Services) × (service_type_register n fuel sv (some p) ≡ some (0, sv'))
      × Registered sv' (p ∷ ps)
      × (sv'.types ≡ sv.types)
unfolding service_type_register register_type register_new
service_type_register-new n sv ps fuel p h l enough new handler unused = (
  record sv { links = list_add sv.links p sv.service_type_head },
  rw (handler, service_type_get-find sv ps fuel (sv.types p).id l enough, unused) refl,
  (list_add-IsList l p new).0,
  refl,
)

-- `service_type_unregister` of a registered structure takes it out and keeps the others in their
-- order.
pub service_type_unregister-Registered :
    (sv : Services) (ps : List ℕ) (p : ℕ)
    → Registered sv ps
    → mem p ps ≡ true
    → Registered (service_type_unregister sv (some p)) (erase p ps)
unfolding service_type_unregister
service_type_unregister-Registered sv ps p l m = (list_del-IsList p l m).0
