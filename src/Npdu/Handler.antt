-- ===== src/Npdu/Handler.antt =====
-- The receiving side of core/npdu.c, which hands the rest of the message to the application layer.
use umtp.Base.{
  ℕ, ◌-◌, ◌<◌, ◌≡◌, ◌^◌, refl, sym, Option, some, List, [], ◌∷◌, ◌++◌, arith, ltb, ◌==◌,
  if◌then◌else◌, drop, take, take-length, lt→ltb, length, ap, suc, ◌+◌, ==_ne, ◌∙◌, ◌≢◌, none, inl,
  inr, Bool-cases, ◌≤◌, false, not_ltb,
}
use umtp.Addr.{UmtpAddr}
use umtp.Errno.{Errno, negative}
use umtp.Npdu.{
  Umtp, SendData, Effect, sent, byte_at, protocol_version, encode_npdu, positive, npdu_send,
  npdu_emit, writes, overrun, max_apdu, max_npdu,
}
use umtp.Apdu.{apdu_handler}

pub record UmtpNpdu : Type 0 where
  pub protocol_version : ℕ

-- The decoded length, and what was read.
abbrev pub npdu_decode : List ℕ → ℕ × UmtpNpdu
npdu_decode npdu = (1, record { protocol_version = byte_at npdu 0 })

-- `umtp` and `pdu` are never NULL in the callers.
unfoldable pub npdu_handler : Errno → ℕ → Umtp → UmtpAddr → List ℕ → ℕ → Option (ℕ × Umtp)
npdu_handler n fuel u src pdu pdu_len =
    let decode_len = (npdu_decode pdu).0 in
    if byte_at pdu 0 == protocol_version
    then (if ltb decode_len pdu_len
        then apdu_handler n fuel u src (drop decode_len pdu) (pdu_len - decode_len)
        else some (0, u))
    else some (negative n.eproto, u)

-- The state after one more frame was sent.
abbrev pub after_sending : Umtp → UmtpAddr → List ℕ → Umtp
after_sending u dst pdu = record u {
  effects = u.effects ++ sent dst (protocol_version ∷ pdu) (suc (length pdu)) ∷ [];
}

pub npdu_send-frame :
    (n : Errno) (u : Umtp) (send_data : SendData) (dst : UmtpAddr) (pdu : List ℕ)
    → u.dl ≡ some send_data
    → 0 < length pdu
    → length pdu ≤ max_apdu
    → npdu_send n u dst pdu (length pdu)
      ≡ (send_data dst (protocol_version ∷ pdu) (suc (length pdu)), after_sending u dst pdu)
unfolding npdu_send npdu_emit
npdu_send-frame n u send_data dst pdu link pos small =
    rw
      (
        ==_ne (length pdu) 0 (omega arith),
        lt→ltb (length pdu) (2 ^ 31) (omega arith),
        not_over,
        take-length pdu,
      )
      (ap (λ dl. npdu_emit n u dl dst (protocol_version ∷ pdu) (1 + length pdu)) link
        ∙ ap (λ len. npdu_emit n u (some send_data) dst (protocol_version ∷ pdu) len) one_more)
  where
    one_more : 1 + length pdu ≡ suc (length pdu)
    one_more = omega arith

    not_over : ltb max_npdu (1 + length pdu) ≡ false
    not_over = ground arith

-- Whatever follows the message in its array is passed on with it.
pub npdu_handler-array :
    (n : Errno) (fuel : ℕ) (u : Umtp) (src : UmtpAddr) (array : List ℕ) (len : ℕ)
    → 0 < len
    → npdu_handler n fuel u src (protocol_version ∷ array) (suc len)
      ≡ apdu_handler n fuel u src array len
unfolding npdu_handler
npdu_handler-array n fuel u src array len pos =
    rw (lt→ltb 1 (suc len) (omega arith)) (ap (apdu_handler n fuel u src array) one_less)
  where
    one_less : suc len - 1 ≡ len
    one_less = omega arith

pub npdu_handler-frame :
    (n : Errno) (fuel : ℕ) (u : Umtp) (src : UmtpAddr) (pdu : List ℕ)
    → 0 < length pdu
    → npdu_handler n fuel u src (protocol_version ∷ pdu) (suc (length pdu))
      ≡ apdu_handler n fuel u src pdu (length pdu)
npdu_handler-frame n fuel u src pdu pos = npdu_handler-array n fuel u src pdu (length pdu) pos

-- Only the first `len` bytes of the array count.
pub npdu_send-take :
    (n : Errno) (u : Umtp) (dst : UmtpAddr) (bs pdu : List ℕ)
    → take (length pdu) bs ≡ pdu
    → npdu_send n u dst bs (length pdu) ≡ npdu_send n u dst pdu (length pdu)
unfolding npdu_send
npdu_send-take n u dst bs pdu e =
    ap
      (λ p.
        if positive (length pdu)
        then npdu_emit n (writes max_npdu (1 + length pdu) u) u.dl dst (encode_npdu ++ p)
            (1 + length pdu)
        else (negative n.einval, u))
      (e ∙ sym (take-length pdu))

-- A copy adds at most an effect.
pub writes-effects :
    (size len : ℕ) (u : Umtp) → (e : List Effect) × (writes size len u ≡ record u { effects = e })
writes-effects size len u = elim (Bool-cases (ltb size len)) [
  | inl e ↦ (u.effects ++ overrun size len ∷ [], rw e refl)
  | inr e ↦ (u.effects, rw e refl)
]

pub writes-fits : (size len : ℕ) (u : Umtp) → len ≤ size → writes size len u ≡ u
writes-fits size len u fits = rw (not_ltb size len fits) refl

-- Sending adds at most effects.
pub npdu_send-effects :
    (n : Errno) (u : Umtp) (dst : UmtpAddr) (bs : List ℕ) (len : ℕ)
    → (e : List Effect) × ((npdu_send n u dst bs len).1 ≡ record u { effects = e })
unfolding npdu_send npdu_emit
npdu_send-effects n u dst bs len = elim (Bool-cases (positive len)) [
  | inl e ↦
      let (es, same) = writes-effects max_npdu (1 + len) u in
      rw (e, same) (emitted (record u { effects = es }) u.dl)
  | inr e ↦ rw e (u.effects, refl)
]
  where
    emitted :
        (u : Umtp) (dl : Option SendData)
        → (e : List Effect) × ((npdu_emit n u dl dst (encode_npdu ++ take len bs) (1 + len)).1
            ≡ record u { effects = e })
    emitted u none = (u.effects, refl)
    emitted u (some send_data) = (_, refl)

-- A message of another version of the protocol is refused.
pub npdu_handler-version :
    (n : Errno) (fuel : ℕ) (u : Umtp) (src : UmtpAddr) (pdu : List ℕ) (len : ℕ)
    → byte_at pdu 0 ≢ protocol_version
    → npdu_handler n fuel u src pdu len ≡ some (negative n.eproto, u)
unfolding npdu_handler
npdu_handler-version n fuel u src pdu len ne = rw (==_ne (byte_at pdu 0) protocol_version ne) refl
