-- ===== src/Datalink/Socket/Bounds.antt =====
-- What `dludp_recv_data` delivers at most.
use umtp.Base.{
  take-length, ℕ, ◌<◌, ◌≤◌, ◌≡◌, suc, refl, sym, ap, ◌∙◌, arith, Bool, true, false, not, ◌&&◌,
  Option, none, some, List, [], ◌∷◌, ◌==◌, ltb, if◌then◌else◌, length, take,
}
use mathlib.Core.Path.{subst}
use umtp.Addr.{UmtpAddr}
use umtp.Errno.{Errno}
use umtp.Datalink.{UmtpDl, signature, received, with_source, six_bytes, dludp_recv_data}
use umtp.Datalink.Socket.{Arrival, delivered, recv_open, udp_recv_data, is_positive}

-- A result that delivers nothing, or the bytes that it counts: one less than were received, and less
-- than there is room for.
abbrev pub InBounds : (recv_bytes max_pdu : ℕ) → ℕ × Option (UmtpAddr × List ℕ) → Type 0
InBounds recv_bytes max_pdu (ret, none) = Unit {0}
InBounds recv_bytes max_pdu (ret, some (src, lpdu)) =
    (ret ≡ length lpdu) × (suc ret ≡ recv_bytes) × (ret < max_pdu)

on_branches :
    (P : ℕ × Option (UmtpAddr × List ℕ) → Type 0) (b : Bool) (x y : ℕ × Option (UmtpAddr × List ℕ))
    → P x
    → (b ≡ false → P y)
    → P (if b then x else y)
on_branches P true x y p q = p
on_branches P false x y p q = q refl

recv_data-InBounds :
    (dl : UmtpDl) (src : UmtpAddr) (s_addr sin_port max_pdu : ℕ) (bs : List ℕ)
    → dl.decrypt ≡ none
    → length bs ≤ max_pdu
    → InBounds (length bs) max_pdu (delivered (dludp_recv_data dl src s_addr sin_port bs))
unfolding dludp_recv_data delivered received with_source
recv_data-InBounds dl src s_addr sin_port max_pdu [] plain small = tt
recv_data-InBounds dl src s_addr sin_port max_pdu (b ∷ body) plain small =
    either ((s_addr == dl.addr) && (sin_port == dl.port)) (b == signature)
  where
    either :
        (mine signed : Bool)
        → InBounds (suc (length body)) max_pdu (
            delivered (
              if mine
              then none
              else if signed
              then with_source (six_bytes s_addr sin_port src) (received dl.decrypt body)
              else none))
    either true signed = tt
    either false false = tt
    either false true =
        subst
          (λ d.
            InBounds (suc (length body)) max_pdu
              (delivered (with_source (six_bytes s_addr sin_port src) (received d body))))
          (sym plain) (refl, refl, omega arith)

-- `dludp_recv_data` without a decryption, whatever the socket and what arrives, where `recvfrom` gives
-- the bytes that it counts: if it delivers bytes, its result is their number, one less than were
-- received, and less than `max_pdu`.
pub udp_recv_data-InBounds :
    (n : Errno) (dl : UmtpDl) (src : UmtpAddr) (max_pdu : ℕ) (a : Arrival)
    → dl.decrypt ≡ none
    → length a.pdu ≡ a.recv_bytes
    → InBounds a.recv_bytes max_pdu (udp_recv_data n (some dl) src max_pdu a)
unfolding udp_recv_data recv_open
udp_recv_data-InBounds n dl src max_pdu a plain whole = opened dl.socket
  where
    Fits : ℕ × Option (UmtpAddr × List ℕ) → Type 0
    Fits = InBounds a.recv_bytes max_pdu

    exact : take a.recv_bytes a.pdu ≡ a.pdu
    exact = ap (λ k. take k a.pdu) (sym whole) ∙ take-length a.pdu

    got :
        ltb max_pdu a.recv_bytes ≡ false
        → Fits (delivered (dludp_recv_data dl src a.s_addr a.sin_port (take a.recv_bytes a.pdu)))
    got small =
        subst (λ bs. Fits (delivered (dludp_recv_data dl src a.s_addr a.sin_port bs))) (sym exact)
          (subst
            (λ k. InBounds k max_pdu (delivered (dludp_recv_data dl src a.s_addr a.sin_port a.pdu)))
            whole
            (recv_data-InBounds dl src a.s_addr a.sin_port max_pdu a.pdu plain
              (ground (arith, small, whole))))

    opened : (socket : Option ℕ) → Fits (recv_open n dl socket src max_pdu a)
    opened none = tt
    opened (some socket) = on_branches Fits (not a.selected) _ _ tt λ e.
        on_branches Fits (not (is_positive a.recv_bytes)) _ _ tt
          λ e. on_branches Fits (ltb max_pdu a.recv_bytes) _ _ tt got
