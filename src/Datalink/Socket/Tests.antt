-- ===== src/Datalink/Socket/Tests.antt =====
-- The theorems at a socket with the descriptor 3.
use umtp.Base.{ℕ, ◌≡◌, ◌≢◌, refl, true, some, none, List, [], ◌∷◌, length, arith}
use umtp.Addr.{UmtpAddr}
use umtp.Errno.{Errno, negative}
use umtp.Datalink.{UmtpDl, datagram, destination, dludp_send_data}
use umtp.Datalink.Socket.{
  Sendto, Arrival, Interface, InitAnswers, udp_send_data, udp_recv_data, dludp_init, dludp_exit,
}
use umtp.Datalink.Socket.Open.{dludp_exit-dludp_init}
use umtp.Datalink.Socket.Bounds.{InBounds, udp_recv_data-InBounds}

abbrev errno : Errno
errno = record {
  einval = 22;
  enoent = 2;
  eexist = 17;
  eproto = 71;
  enomem = 12;
  etimedout = 110;
  ebadf = 9;
}

abbrev send_all : Sendto
send_all s_addr sin_port bs = (length bs, 0)

abbrev interface : Interface
interface = record { fd = 4; ret = 0; s_addr = 255 }

abbrev answers : InitAnswers
answers = record {
  inet_aton = λ ip. none;
  address = interface;
  netmask = interface;
  old_netmask = 0;
  socket = 3;
  setsockopt = 0;
  bind = 0;
  errno = 13;
}

abbrev link : UmtpDl
link = record {
  intf = none;
  socket = none;
  port = 0;
  ip = none;
  addr = 0;
  broadcast_addr = 0;
  encrypt = none;
  decrypt = none;
}

abbrev peer : UmtpAddr
peer = record { addr_len = 0; addr = 0 ∷ 0 ∷ 0 ∷ 0 ∷ 0 ∷ 0 ∷ 0 ∷ [] }

dludp_exit-dludp_init_example :
    (dl' : UmtpDl) × (closed : UmtpDl) × (to : ℕ × ℕ) × (dludp_init errno answers (some link)
      ≡ (0, some dl'))
    × (dl'.port ≢ 0)
    × (destination dl' peer ≡ some to)
    × (dludp_send_data dl' peer (1 ∷ 2 ∷ []) 2 ≡ datagram to.0 to.1 (0x68 ∷ 1 ∷ 2 ∷ []))
    × (udp_send_data errno send_all dl' peer (1 ∷ 2 ∷ []) 2 ≡ 0)
    × (dludp_exit (some dl') ≡ some closed)
    × ((dst : UmtpAddr) (pdu : List ℕ) (len : ℕ)
        → udp_send_data errno send_all closed dst pdu len ≡ negative 9)
    × ((src : UmtpAddr) (max_pdu : ℕ) (arrival : Arrival)
        → udp_recv_data errno (some closed) src max_pdu arrival ≡ (negative 22, none))
dludp_exit-dludp_init_example =
    dludp_exit-dludp_init errno send_all answers link peer (1 ∷ 2 ∷ []) (λ s_addr sin_port bs. refl)
      (record { created = refl; set_up = refl; bound = refl }) refl (omega arith)

abbrev opened : UmtpDl
opened = record link { socket = some 3 }

abbrev arrival : Arrival
arrival = record {
  selected = true;
  recv_bytes = 3;
  s_addr = 33554559;
  sin_port = 2094;
  pdu = 0x68 ∷ 1 ∷ 2 ∷ [];
}

udp_recv_data-InBounds_example :
    InBounds 3 2049 (udp_recv_data errno (some opened) peer 2049 arrival)
udp_recv_data-InBounds_example = udp_recv_data-InBounds errno opened peer 2049 arrival refl refl
