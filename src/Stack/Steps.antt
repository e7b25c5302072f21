-- ===== src/Stack/Steps.antt =====
-- The stack as a state machine: what its threads and the program do to it, one step after the other,
-- until it is stopped, which frees its unit.
-- While `umtp_apdu_submit` waits for a session it changes nothing, so the wait is left to the other
-- steps. Beside the stack stands the list of the structures that are registered.
use umtp.Base.{
  none, refl, ==_ne, suc, ◌≤◌, ◌⊎◌, Bool, true, false, ◌∷◌, ◌==◌, if◌then◌else◌, arith, ℕ, ◌<◌, ◌≡◌,
  ap, Option, some, List, [], length,
}
use mathlib.Core.Path.{subst}
use umtp.Addr.{UmtpAddr}
use umtp.Errno.{Errno, Positive, negative, negative-ne-zero}
use umtp.LinkedList.Chain.{mem}
use umtp.LinkedList.Delete.{erase}
use umtp.Service.{ReqHandler, Services, service_type_register, service_type_unregister}
use umtp.Service.Registry.{
  find, after_register, Registered, service_type_register-Registered,
  service_type_unregister-Registered,
}
use umtp.Mpu.{Mpu, Side, mpu_msg_handle, max_mpu_data}
use umtp.Mpu.Keep.{Kept}
use umtp.Npdu.{Umtp, Effect, sent, called, overrun}
use umtp.Apdu.{ApduData}
use umtp.Apdu.Keep.{StackIsValid, WhenEnds, submit-WhenEnds}
use umtp.Stack.{with_unit, receive, process_time, umtp_send_message}
use umtp.Stack.Safety.{
  Returns, Beside, handler_of, msg_handle-Beside, receive-Returns, process_time-Returns,
}

-- One step of a thread or of the program, with the registered structures before and after it.
pub data Step (n : Errno) (fuel : ℕ) : List ℕ → Umtp → List ℕ → Umtp → Type 0 where
  -- The program sends a message, once a session is free for it.
  sends :
      (ps : List ℕ) (u u' : Umtp) (dst : UmtpAddr) (d : Option ApduData) (ret : ℕ)
      → umtp_send_message n [] u dst d ≡ some (ret, u')
      → Step n fuel ps u ps u'
  -- The stack's task receives a message, which fits a packet if it goes into one.
  receives :
      (ps : List ℕ) (u u' : Umtp) (src : UmtpAddr) (buf : List ℕ) (len : ℕ)
      → (u.sync_mode ≡ true) ⊎ (len ≤ max_mpu_data)
      → receive n fuel u src buf len ≡ some u'
      → Step n fuel ps u ps u'
  -- Its task counts down the sessions.
  counts :
      (ps : List ℕ) (u u' : Umtp) (milliseconds : ℕ)
      → process_time n fuel u milliseconds ≡ some u'
      → Step n fuel ps u ps u'
  -- The unit's task handles the oldest packet of a queue.
  handles :
      (ps : List ℕ) (u u' : Umtp) (mpu mpu' : Mpu) (side : Side)
      → u.mpu ≡ some mpu
      → mpu_msg_handle side (some (handler_of n fuel side)) (mpu, u) ≡ some (mpu', u')
      → Step n fuel ps u ps (with_unit mpu' u')
  -- The program registers a structure that is not registered, of which the fuel allows one more.
  registers :
      (ps : List ℕ) (u : Umtp) (sv : Services) (p ret : ℕ)
      → suc (length ps) < fuel
      → mem p (u.services.service_type_head ∷ ps) ≡ false
      → service_type_register n fuel u.services (some p) ≡ some (ret, sv)
      → Step n fuel ps u (if ret == 0 then p ∷ ps else ps) (record u { services = sv })
  -- It unregisters one that is.
  unregisters :
      (ps : List ℕ) (u : Umtp) (p : ℕ)
      → mem p ps ≡ true
      → Step n fuel ps u
          (erase p ps)
          (record u { services = service_type_unregister u.services (some p) })

-- Whether an array was overrun.
abbrev pub overruns : List Effect → Bool
overruns [] = false
overruns (sent dst frame len ∷ es) = overruns es
overruns (called c ∷ es) = overruns es
overruns (overrun size len ∷ es) = true

-- Steps of which none overruns an array.
pub data Reach (n : Errno) (fuel : ℕ) : List ℕ → Umtp → List ℕ → Umtp → Type 0 where
  stays : (ps : List ℕ) (u : Umtp) → Reach n fuel ps u ps u
  goes :
      (ps ps' ps'' : List ℕ) (u u' u'' : Umtp)
      → Reach n fuel ps u ps' u'
      → Step n fuel ps' u' ps'' u''
      → overruns u''.effects ≡ false
      → Reach n fuel ps u ps'' u''

returned :
    (ps : List ℕ) (r : Option Umtp) (u : Umtp) → Returns ps r → r ≡ some u → StackIsValid ps u
returned ps r u (u', e, v) same = let back : u' ≡ u = cc in subst (StackIsValid ps) back v

erase-length : (p : ℕ) (ps : List ℕ) → length (erase p ps) ≤ length ps
erase-length p [] = omega arith
erase-length p (x ∷ xs) = ground (arith, erase-length p xs)

by_status :
    (n : Errno) (ps : List ℕ) (p : ℕ) (h : Option ReqHandler) (old : Option ℕ)
    → Positive n
    → (after_register n ps p h old).1
      ≡ (if (after_register n ps p h old).0 == 0 then p ∷ ps else ps)
by_status n ps p none old pos =
    rw (==_ne (negative n.einval) 0 (negative-ne-zero n.einval pos.einval_pos)) refl
by_status n ps p (some h) (some other) pos =
    rw (==_ne (negative n.eexist) 0 (negative-ne-zero n.eexist pos.eexist_pos)) refl
by_status n ps p (some h) none pos = refl

-- What a status of `service_type_register` tells of the registered structures.
registered :
    (n : Errno) (fuel : ℕ) (ps : List ℕ) (sv sv' : Services) (p ret : ℕ)
    → Positive n
    → Registered sv ps
    → length ps < fuel
    → mem p (sv.service_type_head ∷ ps) ≡ false
    → service_type_register n fuel sv (some p) ≡ some (ret, sv')
    → Registered sv' (if ret == 0 then p ∷ ps else ps)
registered n fuel ps sv sv' p ret pos l enough new got =
    let handler = (sv.types p).req_handler in
    let old = find sv.types (sv.types p).id ps in
    let (found, done, l', _) = service_type_register-Registered n sv ps fuel p l enough new in
    let same : found ≡ sv' = cc in
    let status : (after_register n ps p handler old).0 ≡ ret = cc in
    subst (λ r. Registered sv' (if r == 0 then p ∷ ps else ps)) status
      (subst (Registered sv') (by_status n ps p handler old pos)
        (subst (λ s. Registered s (after_register n ps p handler old).1) same l'))

module _ (n : Errno) (fuel : ℕ) (pos : Positive n) where
  kept :
      (ps : List ℕ) (r : Option (Mpu × Umtp)) (mpu : Mpu) (u : Umtp)
      → Kept (Beside ps) r
      → r ≡ some (mpu, u)
      → StackIsValid ps (with_unit mpu u)
  kept ps r mpu u (mpu', u', e, v) same =
      let back : (mpu', u') ≡ (mpu, u) = cc in subst (Beside ps) back v

  Step-StackIsValid :
      (ps ps' : List ℕ) (u u' : Umtp)
      → Step n fuel ps u ps' u'
      → length ps < fuel
      → StackIsValid ps u
      → (length ps' < fuel) × StackIsValid ps' u'
  unfolding umtp_send_message
  Step-StackIsValid _ _ u u' (sends ps _ _ dst d ret e) enough v =
      (enough, subst (WhenEnds ps) e (submit-WhenEnds n ps u dst d v))
  Step-StackIsValid _ _ u u' (receives ps _ _ src buf len fits e) enough v =
      (enough, returned ps _ u' (receive-Returns n fuel ps enough u src buf len v) e)
  Step-StackIsValid _ _ u u' (counts ps _ _ milliseconds e) enough v =
      (enough, returned ps _ u' (process_time-Returns n fuel ps enough u milliseconds v) e)
  Step-StackIsValid _ _ u u' (handles ps _ after mpu mpu' side unit e) enough v = (
    enough,
    kept ps _ mpu' after
        (msg_handle-Beside n fuel ps enough side mpu u
          (subst (StackIsValid ps) (ap (λ m. record u { mpu = m }) unit) v))
        e,
  )
  Step-StackIsValid _ _ u u' (registers ps _ sv p ret more new e) enough v = (
    ground arith,
    record {
      sessions = v.sessions;
      services = registered n fuel ps u.services sv p ret pos v.services enough new e;
      unit = v.unit;
    },
  )
  Step-StackIsValid _ _ u u' (unregisters ps _ p m) enough v = (
    omega (arith, erase-length p ps),
    record {
      sessions = v.sessions;
      services = service_type_unregister-Registered u.services ps p v.services m;
      unit = v.unit;
    },
  )

  -- With more fuel than services are registered: from a valid stack, whatever messages are sent and
  -- received by steps that overrun no array, whatever time passes, whatever services are registered and unregistered, and in whatever
  -- order the threads take their steps, only valid stacks are reached.
  pub Reach-StackIsValid :
      (ps ps' : List ℕ) (u u' : Umtp)
      → Reach n fuel ps u ps' u'
      → length ps < fuel
      → StackIsValid ps u
      → (length ps' < fuel) × StackIsValid ps' u'
  Reach-StackIsValid _ _ u u' (stays ps _) enough v = (enough, v)
  Reach-StackIsValid _ _ u u' (goes ps between ps' _ u1 _ path step whole) enough v =
      let (enough1, v1) = Reach-StackIsValid ps between u u1 path enough v in
      Step-StackIsValid between ps' u1 u' step enough1 v1
