-- ===== src/Datalink/Sealed.antt =====
-- Datagrams of a UDP data link that encrypts: the framing of core/dl_udp.c with its `dludp_encrypt`
-- and `dludp_decrypt` behind the pointers `encrypt` and `decrypt`.
use umtp.Base.{
  take-length, ℕ, ◌+◌, ◌<◌, ◌≡◌, ◌≢◌, ◌⊎◌, ◌^◌, sym, ap, ◌∙◌, arith, Option, none, some, List, ◌∷◌,
  length, ◌≤◌, take, if◌then◌else◌, ◌==◌, ==_ne,
}
use umtp.Datalink.{
  buf_size, UmtpDl, Crypt, datagram, signature, six_bytes, encrypted, received, dludp_send_data,
  dludp_recv_data,
}
use umtp.Datalink.Frame.{seven, recv_data-send_data}
use umtp.Crypt.{
  Evp, Pbkdf2, Decrypted, err_out, verify_failed, success, iv_size, dludp_encrypt, dludp_decrypt,
}
use umtp.Crypt.Seal.{Documented}
use umtp.Crypt.Layout.{IsKey, decrypt-encrypt}

-- A length that is not positive is `none`.
pub plain_of : Decrypted → Option (List ℕ)
plain_of err_out = none
plain_of verify_failed = none
plain_of (success bs) = if length bs == 0 then none else some bs

module _ {Ctx : Type 0} (evp : Evp Ctx) (pbkdf2 : Pbkdf2) where
  -- The two pointers, with what the static arrays and `RAND_bytes` give.
  abbrev pub sealing : (iv key : List ℕ) → Crypt
  sealing iv key bs = (dludp_encrypt evp pbkdf2 iv key bs (length bs)).0

  abbrev pub opening : (key : List ℕ) → Crypt
  opening key bs = plain_of (dludp_decrypt evp pbkdf2 key bs (length bs)).0

  -- With an OpenSSL that behaves as documented: a data link that encrypts with an IV of sixteen bytes
  -- sends a message of at least one byte, and at most MAX_PDU bytes with the 33 that are added, to a
  -- peer as one datagram, 33 bytes longer than the message, and a data link that decrypts delivers the
  -- message of that datagram, with the sender's address, unless the sender's address and port are its own. The static array of each
  -- side is zero or holds the key of the password.
  pub recv_data-send_data_sealed :
      Documented evp
      → (addr_len b0 b1 b2 b3 b4 b5 b6 : ℕ) (dl dl' : UmtpDl) (iv key key' pdu : List ℕ)
        (socket ip port s_addr sin_port : ℕ)
      → dl.socket ≡ some socket
      → dl.encrypt ≡ some (sealing iv key)
      → dl'.decrypt ≡ some (opening key')
      → length iv ≡ iv_size
      → IsKey pbkdf2 key
      → IsKey pbkdf2 key'
      → ip < 2 ^ 32
      → port < 2 ^ 16
      → 0 < length pdu
      → length pdu + 33 ≤ buf_size
      → (s_addr ≢ dl'.addr) ⊎ (sin_port ≢ dl'.port)
      → let src = seven addr_len b0 b1 b2 b3 b4 b5 b6 in
        (body : List ℕ) × (dludp_send_data dl (six_bytes ip port src) pdu (length pdu)
          ≡ datagram ip port (signature ∷ body))
        × (length (signature ∷ body) ≡ length pdu + 33)
        × (dludp_recv_data dl' src s_addr sin_port (signature ∷ body)
            ≡ some (six_bytes s_addr sin_port src, pdu))
  unfolding encrypted received plain_of
  recv_data-send_data_sealed doc addr_len b0 b1 b2 b3 b4 b5 b6 dl dl' iv key key' pdu socket ip port
        s_addr sin_port open_socket encrypts decrypts iv_whole is_key is_key' small small' pos
        bounded other =
      let (body, closed, long, opened) =
        decrypt-encrypt evp pbkdf2 doc key key' iv pdu is_key is_key' iv_whole pos
          (omega (arith, bounded)) in
      let all : take (length pdu) pdu ≡ pdu = take-length pdu in
      let out : encrypted dl.encrypt (take (length pdu) pdu) ≡ some body =
        ap (λ e. encrypted e (take (length pdu) pdu)) encrypts
        ∙ ap (sealing iv key) all
        ∙ ap (λ r. r.0) closed in
      let back : received dl'.decrypt body ≡ some (take (length pdu) pdu) =
        ap (λ d. received d body) decrypts
        ∙ ap (λ r. plain_of r.0) opened
        ∙ rw (==_ne (length pdu) 0 (omega arith)) (ap some (sym all)) in
      let (sent, got) =
        recv_data-send_data addr_len b0 b1 b2 b3 b4 b5 b6 dl dl' socket ip port s_addr sin_port pdu
          body (length pdu) open_socket small small' out (omega (arith, long, bounded)) back
          other in
      (
        body,
        sent,
        omega (arith, long),
        got
            ∙ ap (λ bs. some (six_bytes s_addr sin_port (seven addr_len b0 b1 b2 b3 b4 b5 b6), bs))
                all,
      )
