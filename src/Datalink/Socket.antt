-- ===== src/Datalink/Socket.antt =====
-- The calls of the operating system in core/umtp_dl.c and core/dl_udp.c, over what they answer: an
-- `int` as its 32-bit pattern, and the `errno` of a call that fails.
pub mod Open
pub mod Bounds
mod Tests
use umtp.Base.{
  ℕ, zero, suc, ◌+◌, ◌-◌, ◌*◌, ◌/◌, ◌%◌, ◌^◌, Bool, true, false, not, ◌&&◌, ◌||◌, Option, none,
  some, List, [], ◌∷◌, ltb, ◌==◌, if◌then◌else◌, length, take,
}
use umtp.Addr.{UmtpAddr}
use umtp.Errno.{Errno, negative}
use umtp.Datalink.{
  UmtpDl, Send, bad_socket, encrypt_failed, datagram, overrun, dludp_send_data, dludp_recv_data,
}

abbrev pub umtp_default_port : ℕ
umtp_default_port = 0x2E08

abbrev is_negative : ℕ → Bool
is_negative ret = not (ltb ret (2 ^ 31))

abbrev pub is_positive : ℕ → Bool
is_positive ret = not (ret == 0) && ltb ret (2 ^ 31)

-- A descriptor, `none` if it is negative.
abbrev pub descriptor : ℕ → Option ℕ
descriptor fd = if is_negative fd then none else some fd

-- `|` on words of a number of bits.
pub bit_or : (bits a b : ℕ) → ℕ
bit_or zero a b = 0
bit_or (suc bits) a b =
    (if (a % 2 == 1) || (b % 2 == 1) then 1 else 0) + 2 * bit_or bits (a / 2) (b / 2)

-- `fd` is what `socket` returned, and `ret` what `ioctl` returned.
pub get_local_ifr_ioctl : (fd ret : ℕ) → ℕ
get_local_ifr_ioctl fd ret = if is_negative fd then fd else ret

-- The result, and what is at `addr` after it; `s_addr` is what `ioctl` wrote.
pub get_local_address_ioctl : (fd ret s_addr addr : ℕ) → ℕ × ℕ
unfolding get_local_ifr_ioctl
get_local_address_ioctl fd ret s_addr addr =
    let ret' = get_local_ifr_ioctl fd ret in (ret', if is_negative ret' then addr else s_addr)

-- What the operating system says about an interface.
pub record Interface : Type 0 where
  pub fd : ℕ
  pub ret : ℕ
  pub s_addr : ℕ

-- Only a local variable is written.
pub dlumtp_addr_get : Errno → (ifname addr : Option ℕ) → Interface → ℕ × Option ℕ
unfolding get_local_address_ioctl
dlumtp_addr_get n none addr i = (negative n.einval, addr)
dlumtp_addr_get n (some ifname) none i = (negative n.einval, none)
dlumtp_addr_get n (some ifname) (some addr) i =
    ((get_local_address_ioctl i.fd i.ret i.s_addr 0).0, some addr)

-- `netmask` is what the local variable holds before.
pub dlumtp_bcast_addr_get :
    Errno → (ifname laddr addr : Option ℕ) → (netmask : ℕ) → Interface → ℕ × Option ℕ
unfolding get_local_address_ioctl bit_or
dlumtp_bcast_addr_get n none laddr addr netmask i = (negative n.einval, addr)
dlumtp_bcast_addr_get n (some ifname) none addr netmask i = (negative n.einval, addr)
dlumtp_bcast_addr_get n (some ifname) (some laddr) none netmask i = (negative n.einval, none)
dlumtp_bcast_addr_get n (some ifname) (some laddr) (some addr) netmask i =
    let (ret, mask) = get_local_address_ioctl i.fd i.ret i.s_addr netmask in
    (ret, some (if ret == 0 then bit_or 32 laddr (2 ^ 32 - 1 - mask) else 2 ^ 32 - 1))

-- `sendto`: the number of bytes, and `errno`.
abbrev pub Sendto : Type 0
Sendto = (s_addr sin_port : ℕ) → List ℕ → ℕ × ℕ

-- What `sendto` makes of the bytes.
pub sent_status : Sendto → (s_addr sin_port : ℕ) → List ℕ → ℕ
sent_status sendto s_addr sin_port bs =
    let (bytes_sent, errno) = sendto s_addr sin_port bs in
    if bytes_sent == length bs then 0 else negative errno

-- What `dludp_send_data` returns; after an overrun, what it would return.
pub send_status : Errno → Sendto → Send → ℕ
unfolding sent_status
send_status n sendto bad_socket = negative n.ebadf
send_status n sendto encrypt_failed = 0
send_status n sendto (datagram s_addr sin_port bs) = sent_status sendto s_addr sin_port bs
send_status n sendto (overrun s_addr sin_port bs) = sent_status sendto s_addr sin_port bs

-- The `send_data` of a data link.
pub udp_send_data : Errno → Sendto → UmtpDl → UmtpAddr → List ℕ → ℕ → ℕ
unfolding send_status
udp_send_data n sendto dl dst pdu pdu_len =
    send_status n sendto (dludp_send_data dl dst pdu pdu_len)

-- What `select` and `recvfrom` answer: whether the first is positive, and the result of the second
-- with the source and the array `pdu`.
pub record Arrival : Type 0 where
  pub selected : Bool
  pub recv_bytes : ℕ
  pub s_addr : ℕ
  pub sin_port : ℕ
  pub pdu : List ℕ

-- The length that is returned, with what was delivered.
pub delivered : Option (UmtpAddr × List ℕ) → ℕ × Option (UmtpAddr × List ℕ)
delivered none = (0, none)
delivered (some (src, lpdu)) = (length lpdu, some (src, lpdu))

recv_open :
    Errno → UmtpDl → Option ℕ → UmtpAddr → (max_pdu : ℕ) → Arrival → ℕ × Option (UmtpAddr × List ℕ)
unfolding delivered
recv_open n dl none src max_pdu a = (negative n.einval, none)
recv_open n dl (some socket) src max_pdu a =
    let got = delivered (dludp_recv_data dl src a.s_addr a.sin_port (take a.recv_bytes a.pdu)) in
    if not a.selected
    then (negative n.etimedout, none)
    else if not (is_positive a.recv_bytes)
    then (0, none)
    else if ltb max_pdu a.recv_bytes
    then (negative n.enomem, none)
    else got

-- The whole of `dludp_recv_data`: the result, and the source and the bytes if there are any.
pub udp_recv_data :
    Errno → Option UmtpDl → UmtpAddr → (max_pdu : ℕ) → Arrival → ℕ × Option (UmtpAddr × List ℕ)
unfolding recv_open
udp_recv_data n none src max_pdu a = (negative n.einval, none)
udp_recv_data n (some dl) src max_pdu a = recv_open n dl dl.socket src max_pdu a

-- What the calls in `dludp_init` answer; `inet_aton` is `none` where it leaves the address alone.
pub record InitAnswers : Type 0 where
  pub inet_aton : ℕ → Option ℕ
  pub address : Interface
  pub netmask : Interface
  pub old_netmask : ℕ
  pub socket : ℕ
  pub setsockopt : ℕ
  pub bind : ℕ
  pub errno : ℕ

-- The pointer to "eth0".
abbrev pub eth0 : ℕ
eth0 = 0

abbrev pub intf_of : Option ℕ → ℕ
intf_of none = eth0
intf_of (some intf) = intf

abbrev or_keep : ℕ → Option ℕ → ℕ
or_keep old none = old
or_keep old (some new) = new

-- The address, from the string or from the interface.
own_addr : Errno → InitAnswers → (ip : Option ℕ) (intf addr : ℕ) → ℕ
unfolding dlumtp_addr_get
own_addr n a (some ip) intf addr = or_keep addr (a.inet_aton ip)
own_addr n a none intf addr = or_keep addr (dlumtp_addr_get n (some intf) (some addr) a.address).1

-- From the creation of the socket on; the two calls that follow it close it if they fail.
pub open_socket : InitAnswers → UmtpDl → ℕ × UmtpDl
open_socket a dl =
    let opened = record dl { socket = descriptor a.socket } in
    let closed = record dl { socket = none } in
    if not (is_positive a.socket)
    then (a.errno, opened)
    else if not (a.setsockopt == 0)
    then (a.errno, closed)
    else if not (a.bind == 0)
    then (a.errno, closed)
    else (0, opened)

pub dludp_init : Errno → InitAnswers → Option UmtpDl → ℕ × Option UmtpDl
unfolding own_addr dlumtp_bcast_addr_get open_socket
dludp_init n a none = (negative n.einval, none)
dludp_init n a (some dl) =
    let intf = intf_of dl.intf in
    let addr = own_addr n a dl.ip intf dl.addr in
    let broadcast_addr =
      or_keep dl.broadcast_addr
        (dlumtp_bcast_addr_get n (some intf) (some addr) (some dl.broadcast_addr) a.old_netmask
          a.netmask).1 in
    let (ret, dl') = open_socket a (record dl {
      port = if is_positive dl.port then dl.port else umtp_default_port;
      addr = addr;
      broadcast_addr = broadcast_addr;
    }) in
    (ret, some dl')

-- `dl->socket` is tested for 0 only, so a negative one is closed again.
exit_socket : Option ℕ → Option ℕ
exit_socket none = none
exit_socket (some socket) = if socket == 0 then some socket else none

pub dludp_exit : Option UmtpDl → Option UmtpDl
unfolding exit_socket
dludp_exit none = none
dludp_exit (some dl) = some (record dl { socket = exit_socket dl.socket })

-- Whether the structure is freed, and what it holds then.
pub umtp_dludp_destroy : Option UmtpDl → Bool × Option UmtpDl
unfolding dludp_exit
umtp_dludp_destroy none = (false, none)
umtp_dludp_destroy (some dl) = (true, dludp_exit (some dl))

-- `memory` tells whether `malloc` gives some. The encryption is left out of the structure.
pub umtp_dludp_create : (memory : Bool) (intf ip : Option ℕ) (port : ℕ) → Option UmtpDl
umtp_dludp_create false intf ip port = none
umtp_dludp_create true intf ip port = some (record {
  intf = intf;
  socket = none;
  port = port;
  ip = ip;
  addr = 0;
  broadcast_addr = 0;
  encrypt = none;
  decrypt = none;
})
