-- ===== src/Datalink/Tests.antt =====
-- The round trips at a loopback address and a message of two bytes.
use umtp.Base.{◌≡◌, inl, refl, some, none, [], ◌∷◌, arith}
use umtp.Addr.{UmtpAddr}
use umtp.Datalink.{
  UmtpDl, datagram, six_bytes, dludp_send_data, dludp_recv_data, encrypted, received,
}
use umtp.Datalink.Frame.{seven, recv_data-send_data}

abbrev link : UmtpDl
link = record {
  intf = none;
  socket = some 3;
  ip = some 1;
  port = 8424;
  addr = 16777343;
  broadcast_addr = 4294967295;
  encrypt = none;
  decrypt = none;
}

abbrev zeros : UmtpAddr
zeros = seven 0 0 0 0 0 0 0 0

recv_data-send_data_example :
    (dludp_send_data link (six_bytes 33554559 8424 zeros) (1 ∷ 2 ∷ []) 2
      ≡ datagram 33554559 8424 (0x68 ∷ 1 ∷ 2 ∷ []))
    × (dludp_recv_data link zeros 33554559 8424 (0x68 ∷ 1 ∷ 2 ∷ [])
        ≡ some (six_bytes 33554559 8424 zeros, 1 ∷ 2 ∷ []))
unfolding encrypted received
recv_data-send_data_example =
    recv_data-send_data 0 0 0 0 0 0 0 0 link link 3 33554559 8424 33554559 8424 (1 ∷ 2 ∷ [])
      (1 ∷ 2 ∷ []) 2 refl (omega arith) (omega arith) refl (omega arith) refl (inl (omega arith))
