-- ===== src/Datalink/Frame.antt =====
-- Round trips of addresses and of datagrams.
use umtp.Base.{
  ℕ, ◌%◌, ◌^◌, ◌<◌, ◌≡◌, ◌≢◌, ◌⊎◌, refl, ap, ap₂, ◌∙◌, false, ◌&&◌, some, List, [], ◌∷◌, arith,
  ◌==◌, take, drop, u16_mod, length, not_ltb, ◌+◌,
}
use umtp.Addr.{UmtpAddr}
use umtp.Datalink.{
  buf_size, UmtpDl, datagram, six_bytes, word_bytes, bytes_word, htons, signature, send_to,
  encrypted, destination, send_open, received, with_source, dlumtp_get_umtp_addr,
  dlumtp_get_umtp_bcast_addr, dlumtp_decode_address, dlumtp_encode_address, dludp_send_data,
  dludp_recv_data,
}
use umtp.Datalink.Words.{bytes_word-four, bytes_word-two}

-- A structure with seven bytes in its array.
abbrev pub seven : (addr_len b0 b1 b2 b3 b4 b5 b6 : ℕ) → UmtpAddr
seven addr_len b0 b1 b2 b3 b4 b5 b6 = record {
  addr_len = addr_len;
  addr = b0 ∷ b1 ∷ b2 ∷ b3 ∷ b4 ∷ b5 ∷ b6 ∷ [];
}

module _ (len b0 b1 b2 b3 b4 b5 b6 : ℕ) where
  abbrev old : UmtpAddr
  old = seven len b0 b1 b2 b3 b4 b5 b6

  decode-six_bytes :
      (ip port : ℕ)
      → ip < 2 ^ 32
      → dlumtp_decode_address (some (six_bytes ip port old)) ≡ some (ip, port % u16_mod)
  unfolding dlumtp_decode_address
  decode-six_bytes ip port small =
      ap₂ (λ i p. some (i, p)) (four ∙ bytes_word-four ip small) (two ∙ bytes_word-two port)
    where
      four : bytes_word (take 4 (six_bytes ip port old).addr) ≡ bytes_word (word_bytes 4 ip)
      four = unfold word_bytes in refl

      two :
          bytes_word (take 2 (drop 4 (six_bytes ip port old).addr)) ≡ bytes_word (word_bytes 2 port)
      two = unfold word_bytes in refl

  -- The addresses that `dlumtp_get_umtp_addr` and `dlumtp_get_umtp_bcast_addr` write decode to the
  -- data link's address, or its broadcast address, and the low half of its port.
  pub decode-get_umtp_addr :
      (dl : UmtpDl)
      → dl.addr < 2 ^ 32
      → dl.broadcast_addr < 2 ^ 32
      → (dlumtp_decode_address (dlumtp_get_umtp_addr (some dl) (some old))
          ≡ some (dl.addr, dl.port % u16_mod))
        × (dlumtp_decode_address (dlumtp_get_umtp_bcast_addr (some dl) (some old))
            ≡ some (dl.broadcast_addr, dl.port % u16_mod))
  unfolding dlumtp_get_umtp_addr dlumtp_get_umtp_bcast_addr
  decode-get_umtp_addr dl small small' =
      (decode-six_bytes dl.addr dl.port small, decode-six_bytes dl.broadcast_addr dl.port small')

  -- An address that `dlumtp_encode_address` writes decodes to the IP address and to the port in
  -- network order, and the network order of that is the port.
  pub decode-encode_address :
      (ip port : ℕ)
      → ip < 2 ^ 32
      → port < 2 ^ 16
      → (dlumtp_decode_address (dlumtp_encode_address (some old) (some ip) port)
          ≡ some (ip, htons port))
        × (htons (htons port) ≡ port)
  unfolding dlumtp_encode_address htons
  decode-encode_address ip port small small' =
      (decode-six_bytes ip (htons port) small ∙ ap (λ p. some (ip, p)) (omega arith), omega arith)

  -- A message that with its signature fits `buf`, MAX_PDU bytes, encrypted if the data link encrypts,
  -- becomes a datagram to the peer's address and port, and `dludp_recv_data` of a data link that
  -- decrypts what the sender encrypts delivers the bytes that were sent, with the sender's address, unless the sender's address and port are its own.
  pub recv_data-send_data :
      (dl dl' : UmtpDl) (socket ip port s_addr sin_port : ℕ) (pdu body : List ℕ) (pdu_len : ℕ)
      → dl.socket ≡ some socket
      → ip < 2 ^ 32
      → port < 2 ^ 16
      → encrypted dl.encrypt (take pdu_len pdu) ≡ some body
      → length body < buf_size
      → received dl'.decrypt body ≡ some (take pdu_len pdu)
      → (s_addr ≢ dl'.addr) ⊎ (sin_port ≢ dl'.port)
      → (dludp_send_data dl (six_bytes ip port old) pdu pdu_len
          ≡ datagram ip port (signature ∷ body))
        × (dludp_recv_data dl' old s_addr sin_port (signature ∷ body)
            ≡ some (six_bytes s_addr sin_port old, take pdu_len pdu))
  unfolding dludp_send_data send_open destination send_to dludp_recv_data with_source
  recv_data-send_data dl dl' socket ip port s_addr sin_port pdu body pdu_len open_socket small
        small' e fits d other =
      (
        ap (λ k. send_open dl k (six_bytes ip port old) pdu pdu_len) open_socket
            ∙ ap₂ send_to to e
            ∙ rw (not_ltb buf_size (1 + length body) (omega (arith, fits))) refl,
        rw not_mine (ap (with_source (six_bytes s_addr sin_port old)) d),
      )
    where
      to : destination dl (six_bytes ip port old) ≡ some (ip, port)
      to = decode-six_bytes ip port small ∙ ap (λ p. some (ip, p)) (omega arith)

      not_mine : ((s_addr == dl'.addr) && (sin_port == dl'.port)) ≡ false
      not_mine = ground arith
