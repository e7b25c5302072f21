-- ===== src/Datalink.antt =====
-- core/umtp_dl.c, include/umtp_dl.h and the framing of core/dl_udp.c: the addresses of peers, and
-- the datagrams with a signature byte before the message. Words lie in storage lowest byte first. Here a
-- datagram is the value that goes to `sendto` or comes from `recvfrom`; the sockets are Datalink/Socket. The
-- functions behind `encrypt` and `decrypt` are parameters, with `none` for a length that is not
-- positive.
pub mod Words
pub mod Frame
pub mod Sealed
pub mod Socket
mod Tests
use umtp.Base.{
  ℕ, zero, suc, ◌+◌, ◌-◌, ◌*◌, ◌/◌, ◌%◌, ◌^◌, Bool, true, false, ◌&&◌, Option, none, some, List, [],
  ◌∷◌, ◌++◌, ◌==◌, ltb, length, if◌then◌else◌, take, drop, overwrite, u16_mod,
}
use umtp.Addr.{UmtpAddr}

abbrev pub Crypt : Type 0
Crypt = List ℕ → Option (List ℕ)

-- `struct umtp_dl`; the socket is `none` where it is negative, and the two strings are pointers.
pub record UmtpDl : Type 0 where
  pub intf : Option ℕ
  pub socket : Option ℕ
  pub port : ℕ
  pub ip : Option ℕ
  pub addr : ℕ
  pub broadcast_addr : ℕ
  pub encrypt : Option Crypt
  pub decrypt : Option Crypt

abbrev pub signature : ℕ
signature = 0x68

-- The bytes of a word in storage, and back.
pub word_bytes : (size word : ℕ) → List ℕ
word_bytes zero w = []
word_bytes (suc k) w = w % 256 ∷ word_bytes k (w / 256)

pub bytes_word : List ℕ → ℕ
bytes_word [] = 0
bytes_word (b ∷ bs) = b + 256 * bytes_word bs

pub dlumtp_set_bcast_addr : Option UmtpDl → ℕ → Option UmtpDl
dlumtp_set_bcast_addr none addr = none
dlumtp_set_bcast_addr (some dl) addr = some (record dl { broadcast_addr = addr })

pub dlumtp_get_bcast_addr : Option UmtpDl → ℕ
dlumtp_get_bcast_addr none = 0
dlumtp_get_bcast_addr (some dl) = dl.broadcast_addr

pub dlumtp_set_addr : Option UmtpDl → ℕ → Option UmtpDl
dlumtp_set_addr none addr = none
dlumtp_set_addr (some dl) addr = some (record dl { addr = addr })

pub dlumtp_get_addr : Option UmtpDl → ℕ
dlumtp_get_addr none = 0
dlumtp_get_addr (some dl) = dl.addr

-- Four bytes of an address and two of a port, of an array of seven; the last byte stays.
abbrev pub six_bytes : (ip port : ℕ) → UmtpAddr → UmtpAddr
six_bytes ip port addr = record {
  addr_len = 6;
  addr = overwrite addr.addr (word_bytes 4 ip ++ word_bytes 2 port) 6;
}

pub dlumtp_get_umtp_bcast_addr : Option UmtpDl → Option UmtpAddr → Option UmtpAddr
unfolding word_bytes
dlumtp_get_umtp_bcast_addr none addr = addr
dlumtp_get_umtp_bcast_addr (some dl) none = none
dlumtp_get_umtp_bcast_addr (some dl) (some addr) = some (six_bytes dl.broadcast_addr dl.port addr)

pub dlumtp_get_umtp_addr : Option UmtpDl → Option UmtpAddr → Option UmtpAddr
unfolding word_bytes
dlumtp_get_umtp_addr none addr = addr
dlumtp_get_umtp_addr (some dl) none = none
dlumtp_get_umtp_addr (some dl) (some addr) = some (six_bytes dl.addr dl.port addr)

-- `none` is the result 0; otherwise it is 6, and these are the address and the port.
pub dlumtp_decode_address : Option UmtpAddr → Option (ℕ × ℕ)
unfolding bytes_word
dlumtp_decode_address none = none
dlumtp_decode_address (some addr) =
    some (bytes_word (take 4 addr.addr), bytes_word (take 2 (drop 4 addr.addr)))

-- `htons` on a host that stores the lowest byte first.
pub htons : ℕ → ℕ
htons port = port % 256 * 256 + port / 256 % 256

-- `ip` is what `inet_addr` makes of the string, `none` for NULL.
pub dlumtp_encode_address : Option UmtpAddr → Option ℕ → ℕ → Option UmtpAddr
unfolding word_bytes htons
dlumtp_encode_address none ip port = none
dlumtp_encode_address (some addr) none port = none
dlumtp_encode_address (some addr) (some s_addr) port = some (six_bytes s_addr (htons port) addr)

-- What `dludp_send_data` does before `sendto`: -EBADF, 0 for a failed encryption, or a datagram to an
-- address and a port. `overrun` is a datagram that was written behind the end of `buf`: from there on
-- nothing is known of the program. A failed encryption is taken to have written nothing behind it.
pub data Send : Type 0 where
  bad_socket : Send
  encrypt_failed : Send
  datagram : (s_addr sin_port : ℕ) → List ℕ → Send
  overrun : (s_addr sin_port : ℕ) → List ℕ → Send

-- The bytes of `buf`, MAX_PDU.
abbrev pub buf_size : ℕ
buf_size = 2049

pub destination : UmtpDl → UmtpAddr → Option (ℕ × ℕ)
unfolding dlumtp_decode_address
destination dl dst =
    if dst.addr_len == 0
    then some (dl.broadcast_addr, dl.port % u16_mod)
    else dlumtp_decode_address (some dst)

pub encrypted : Option Crypt → List ℕ → Option (List ℕ)
encrypted none pdu = some pdu
encrypted (some encrypt) pdu = encrypt pdu

send_to : Option (ℕ × ℕ) → Option (List ℕ) → Send
send_to none body = bad_socket
send_to (some to) none = encrypt_failed
send_to (some (s_addr, sin_port)) (some body) =
    if ltb buf_size (1 + length body)
    then overrun s_addr sin_port (signature ∷ body)
    else datagram s_addr sin_port (signature ∷ body)

send_open : UmtpDl → Option ℕ → UmtpAddr → List ℕ → ℕ → Send
unfolding destination encrypted send_to
send_open dl none dst pdu pdu_len = bad_socket
send_open dl (some socket) dst pdu pdu_len =
    send_to (destination dl dst) (encrypted dl.encrypt (take pdu_len pdu))

pub dludp_send_data : UmtpDl → UmtpAddr → List ℕ → ℕ → Send
unfolding send_open
dludp_send_data dl dst pdu pdu_len = send_open dl dl.socket dst pdu pdu_len

-- What `dludp_recv_data` delivers of a datagram that `recvfrom` gave, at most `max_pdu` bytes: `none`
-- is the result 0, with which it drops one.
pub received : Option Crypt → List ℕ → Option (List ℕ)
received none body = some body
received (some decrypt) body = decrypt body

with_source : UmtpAddr → Option (List ℕ) → Option (UmtpAddr × List ℕ)
with_source src none = none
with_source src (some pdu) = some (src, pdu)

pub dludp_recv_data :
    UmtpDl → UmtpAddr → (s_addr sin_port : ℕ) → List ℕ → Option (UmtpAddr × List ℕ)
unfolding received with_source word_bytes
dludp_recv_data dl src s_addr sin_port [] = none
dludp_recv_data dl src s_addr sin_port (b ∷ body) =
    if (s_addr == dl.addr) && (sin_port == dl.port)
    then none
    else if b == signature
    then with_source (six_bytes s_addr sin_port src) (received dl.decrypt body)
    else none
