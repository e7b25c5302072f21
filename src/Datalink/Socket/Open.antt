-- ===== src/Datalink/Socket/Open.antt =====
-- A UDP data link from its creation to its exit.
use umtp.Base.{
  ℕ, ◌≡◌, ◌≢◌, ◌⊎◌, ◌%◌, u16_mod, inl, inr, refl, ap, ap₂, ◌∙◌, arith, Bool, true, false, not,
  Option, none, some, List, ◌∷◌, ◌==◌, ==_refl, ==_ne, if◌then◌else◌, length, take, take-length,
  Bool-cases, ltb, not_ltb, ◌<◌, ◌+◌,
}
use umtp.Addr.{UmtpAddr}
use umtp.Errno.{Errno, negative}
use umtp.Datalink.{
  UmtpDl, signature, send_to, send_open, destination, encrypted, dlumtp_decode_address,
  dludp_send_data, datagram, buf_size,
}
use umtp.Datalink.Socket.{
  Sendto, sent_status, send_status, udp_send_data, Arrival, recv_open, udp_recv_data, InitAnswers,
  is_positive, descriptor, open_socket, dludp_init, exit_socket, dludp_exit, intf_of, own_addr,
  or_keep, dlumtp_bcast_addr_get, umtp_default_port, umtp_dludp_create,
}

-- `sendto` sends every byte that it is given.
abbrev pub SendsAll : Sendto → Type 0
SendsAll sendto = (s_addr sin_port : ℕ) (bs : List ℕ) → (sendto s_addr sin_port bs).0 ≡ length bs

destination-some : (dl : UmtpDl) (dst : UmtpAddr) → (to : ℕ × ℕ) × (destination dl dst ≡ some to)
unfolding destination dlumtp_decode_address
destination-some dl dst = found (dst.addr_len == 0)
  where
    found :
        (b : Bool)
        → (to : ℕ × ℕ) × ((if b
              then some (dl.broadcast_addr, dl.port % u16_mod)
              else dlumtp_decode_address (some dst))
            ≡ some to)
    found true = (_, refl)
    found false = (_, refl)

module _ (n : Errno) (sendto : Sendto) (all : SendsAll sendto) where
  sent_status-zero : (s_addr sin_port : ℕ) (bs : List ℕ) → sent_status sendto s_addr sin_port bs ≡ 0
  unfolding sent_status
  sent_status-zero s_addr sin_port bs =
      rw (all s_addr sin_port bs)
        (ap (λ b. if b then 0 else negative (sendto s_addr sin_port bs).1) (==_refl (length bs)))

  send_to-zero :
      (to : ℕ × ℕ) (body : Option (List ℕ)) → send_status n sendto (send_to (some to) body) ≡ 0
  unfolding send_status send_to
  send_to-zero to none = refl
  send_to-zero (s_addr, sin_port) (some body) = elim (Bool-cases (ltb buf_size (1 + length body))) [
    | inl e ↦ rw e (sent_status-zero s_addr sin_port (signature ∷ body))
    | inr e ↦ rw e (sent_status-zero s_addr sin_port (signature ∷ body))
  ]

  pub udp_send_data-zero :
      (dl : UmtpDl) (socket : ℕ) (dst : UmtpAddr) (pdu : List ℕ) (len : ℕ)
      → dl.socket ≡ some socket
      → udp_send_data n sendto dl dst pdu len ≡ 0
  unfolding udp_send_data dludp_send_data send_open
  udp_send_data-zero dl socket dst pdu len e =
      let (to, goes) = destination-some dl dst in
      ap (λ k. send_status n sendto (send_open dl k dst pdu len)) e
      ∙ ap (λ t. send_status n sendto (send_to t (encrypted dl.encrypt (take len pdu)))) goes
      ∙ send_to-zero to (encrypted dl.encrypt (take len pdu))

pub udp_send_data-closed :
    (n : Errno) (sendto : Sendto) (dl : UmtpDl) (dst : UmtpAddr) (pdu : List ℕ) (len : ℕ)
    → dl.socket ≡ none
    → udp_send_data n sendto dl dst pdu len ≡ negative n.ebadf
unfolding udp_send_data send_status dludp_send_data send_open
udp_send_data-closed n sendto dl dst pdu len e =
    ap (λ k. send_status n sendto (send_open dl k dst pdu len)) e

pub udp_recv_data-closed :
    (n : Errno) (dl : UmtpDl) (src : UmtpAddr) (max_pdu : ℕ) (a : Arrival)
    → dl.socket ≡ none
    → udp_recv_data n (some dl) src max_pdu a ≡ (negative n.einval, none)
unfolding udp_recv_data recv_open
udp_recv_data-closed n dl src max_pdu a e = ap (λ k. recv_open n dl k src max_pdu a) e

descriptor-some : (fd : ℕ) → is_positive fd ≡ true → descriptor fd ≡ some fd
descriptor-some fd e = ground arith

port-ne-zero : (port : ℕ) → (if is_positive port then port else umtp_default_port) ≢ 0
port-ne-zero port e = elim (Bool-cases (is_positive port)) [
  | inl p ↦ ground arith
  | inr p ↦ ground arith
]

-- The socket is created, set up and bound.
pub record Opens (a : InitAnswers) : Type 0 where
  pub created : is_positive a.socket ≡ true
  pub set_up : a.setsockopt ≡ 0
  pub bound : a.bind ≡ 0

open_socket-Opens :
    (a : InitAnswers) (dl : UmtpDl)
    → Opens a
    → open_socket a dl ≡ (0, record dl { socket = some a.socket })
unfolding open_socket
open_socket-Opens a dl o =
    let closed : UmtpDl = record dl { socket = none } in
    let result : Bool → ℕ → ℕ → Option ℕ → ℕ × UmtpDl = λ p option bind fd.
      if not p
      then (a.errno, record dl { socket = fd })
      else if not (option == 0)
      then (a.errno, closed)
      else if not (bind == 0)
      then (a.errno, closed)
      else (0, record dl { socket = fd }) in
    ap₂ (λ p fd. result p a.setsockopt a.bind fd) o.created (descriptor-some a.socket o.created)
    ∙ ap₂ (λ option bind. result true option bind (some a.socket)) o.set_up o.bound

-- The socket is created, and then a call fails.
open_socket-fails :
    (a : InitAnswers) (dl : UmtpDl)
    → is_positive a.socket ≡ true
    → (a.setsockopt ≢ 0) ⊎ (a.bind ≢ 0)
    → open_socket a dl ≡ (a.errno, record dl { socket = none })
unfolding open_socket
open_socket-fails a dl created fails =
    let rest : ℕ × UmtpDl = outcome (a.setsockopt == 0) (a.bind == 0) in
    let whole : Bool → ℕ × UmtpDl =
      λ p. if not p then (a.errno, record dl { socket = descriptor a.socket }) else rest in
    ap whole created ∙ failed (a.setsockopt == 0) (a.bind == 0) either
  where
    outcome : Bool → Bool → ℕ × UmtpDl
    outcome b c =
        if not b
        then (a.errno, record dl { socket = none })
        else if not c
        then (a.errno, record dl { socket = none })
        else (0, record dl { socket = descriptor a.socket })

    failed :
        (b c : Bool)
        → (b ≡ false) ⊎ (c ≡ false)
        → outcome b c ≡ (a.errno, record dl { socket = none })
    failed false c e = refl
    failed true false e = refl
    failed true true (inl e) = cc
    failed true true (inr e) = cc

    either : ((a.setsockopt == 0) ≡ false) ⊎ ((a.bind == 0) ≡ false)
    either = elim fails [
      | inl ne ↦ inl (==_ne a.setsockopt 0 ne)
      | inr ne ↦ inr (==_ne a.bind 0 ne)
    ]

-- The data link as `dludp_init` has it when the socket is created.
abbrev prepared : Errno → InitAnswers → UmtpDl → UmtpDl
prepared n a dl =
    let intf = intf_of dl.intf in
    let addr = own_addr n a dl.ip intf dl.addr in
    let broadcast =
      dlumtp_bcast_addr_get n (some intf) (some addr) (some dl.broadcast_addr) a.old_netmask
        a.netmask in
    record dl {
      port = if is_positive dl.port then dl.port else umtp_default_port;
      addr = addr;
      broadcast_addr = or_keep dl.broadcast_addr broadcast.1;
    }

-- Without an encryption, a message that fits `buf` behind its signature becomes a datagram.
plain-datagram :
    (dl : UmtpDl) (socket : ℕ) (dst : UmtpAddr) (pdu : List ℕ)
    → dl.socket ≡ some socket
    → dl.encrypt ≡ none
    → length pdu < buf_size
    → (to : ℕ × ℕ) × (destination dl dst ≡ some to)
      × (dludp_send_data dl dst pdu (length pdu) ≡ datagram to.0 to.1 (signature ∷ pdu))
unfolding dludp_send_data send_open send_to encrypted
plain-datagram dl socket dst pdu opened plain fits =
    let (to, goes) = destination-some dl dst in
    let all : take (length pdu) pdu ≡ pdu = take-length pdu in
    (
      to,
      goes,
      ap (λ k. send_open dl k dst pdu (length pdu)) opened
          ∙ ap₂ (λ t e. send_to t (encrypted e (take (length pdu) pdu))) goes plain
          ∙ ap (λ bs. send_to (some to) (some bs)) all
          ∙ rw (not_ltb buf_size (1 + length pdu) (omega (arith, fits))) refl,
    )

-- The data link that `dludp_init` leaves if the socket is created, set up and bound.
pub dludp_init-opened :
    (n : Errno) (a : InitAnswers) (dl : UmtpDl)
    → Opens a
    → (dl' : UmtpDl) × (dludp_init n a (some dl) ≡ (0, some dl'))
      × (dl'.port ≢ 0)
      × (dl'.socket ≡ some a.socket)
      × (dl'.encrypt ≡ dl.encrypt)
unfolding dludp_init
dludp_init-opened n a dl o = (
  record (prepared n a dl) { socket = some a.socket },
  ap (λ r. (r.0, some r.1)) (open_socket-Opens a (prepared n a dl) o),
  port-ne-zero dl.port,
  refl,
  refl,
)

-- A data link without an encryption, whose `dludp_init` creates the socket, sets it up and binds it,
-- over a `sendto` that sends all bytes: `dludp_init` returns 0 and leaves a port that is not 0; then a
-- message that with its signature fits `buf`, MAX_PDU bytes, goes out as one datagram, the signature and
-- the message, to the address and the port that the destination stands for, with status 0. After
-- `dludp_exit` of a socket other than 0, every message is refused with -EBADF, and receiving returns
-- -EINVAL, whatever arrives.
pub dludp_exit-dludp_init :
    (n : Errno) (sendto : Sendto) (a : InitAnswers) (dl : UmtpDl) (dst : UmtpAddr) (pdu : List ℕ)
    → SendsAll sendto
    → Opens a
    → dl.encrypt ≡ none
    → length pdu < buf_size
    → (dl' : UmtpDl) × (closed : UmtpDl) × (to : ℕ × ℕ) × (dludp_init n a (some dl) ≡ (0, some dl'))
      × (dl'.port ≢ 0)
      × (destination dl' dst ≡ some to)
      × (dludp_send_data dl' dst pdu (length pdu) ≡ datagram to.0 to.1 (signature ∷ pdu))
      × (udp_send_data n sendto dl' dst pdu (length pdu) ≡ 0)
      × (dludp_exit (some dl') ≡ some closed)
      × ((dst : UmtpAddr) (pdu : List ℕ) (len : ℕ)
          → udp_send_data n sendto closed dst pdu len ≡ negative n.ebadf)
      × ((src : UmtpAddr) (max_pdu : ℕ) (arrival : Arrival)
          → udp_recv_data n (some closed) src max_pdu arrival ≡ (negative n.einval, none))
unfolding dludp_exit exit_socket
dludp_exit-dludp_init n sendto a dl dst pdu all o plain fits =
    let (dl', opened, port, there, same) = dludp_init-opened n a dl o in
    let closed : UmtpDl = record dl' { socket = none } in
    let (to, goes, sends) = plain-datagram dl' a.socket dst pdu there (same ∙ plain) fits in
    (
      dl',
      closed,
      to,
      opened,
      port,
      goes,
      sends,
      udp_send_data-zero n sendto all dl' a.socket dst pdu (length pdu) there,
      ap (λ s. some (record dl' { socket = exit_socket s })) there
          ∙ ap (λ b. some (record dl' { socket = if b then some a.socket else none }))
              (==_ne a.socket 0 (ground (arith, o.created))),
      λ dst pdu len. udp_send_data-closed n sendto closed dst pdu len refl,
      λ src max_pdu arrival. udp_recv_data-closed n closed src max_pdu arrival refl,
    )

-- If the socket is created and then `setsockopt` or `bind` fails, `dludp_init` returns `errno`, which
-- `umtp_start` takes for a failure if it is not 0, and leaves the socket closed: every message is then
-- refused with -EBADF.
pub dludp_init-fails :
    (n : Errno) (sendto : Sendto) (a : InitAnswers) (dl : UmtpDl)
    → is_positive a.socket ≡ true
    → (a.setsockopt ≢ 0) ⊎ (a.bind ≢ 0)
    → (closed : UmtpDl) × (dludp_init n a (some dl) ≡ (a.errno, some closed))
      × ((dst : UmtpAddr) (pdu : List ℕ) (len : ℕ)
          → udp_send_data n sendto closed dst pdu len ≡ negative n.ebadf)
unfolding dludp_init
dludp_init-fails n sendto a dl created fails =
    let closed : UmtpDl = record (prepared n a dl) { socket = none } in
    (
      closed,
      ap (λ r. (r.0, some r.1)) (open_socket-fails a (prepared n a dl) created fails),
      λ dst pdu len. udp_send_data-closed n sendto closed dst pdu len refl,
    )

-- The data link as `umtp_dludp_create` makes it.
abbrev pub created : (intf ip : Option ℕ) (port : ℕ) → UmtpDl
created intf ip port = record {
  intf = intf;
  socket = none;
  port = port;
  ip = ip;
  addr = 0;
  broadcast_addr = 0;
  encrypt = none;
  decrypt = none;
}

pub umtp_dludp_create-true :
    (intf ip : Option ℕ) (port : ℕ)
    → umtp_dludp_create true intf ip port ≡ some (created intf ip port)
unfolding umtp_dludp_create
umtp_dludp_create-true intf ip port = refl
