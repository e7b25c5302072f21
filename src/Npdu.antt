-- ===== src/Npdu.antt =====
-- core/npdu.c and include/npdu.h: the network layer, one byte with the protocol's version before
-- the application's data. Here stand the state of the stack that its layers share and the sending
-- side; the receiving side is Npdu/Handler. The data link's `send_data` is a function pointer: a
-- function from the destination, the frame and its length to the status, and each call of it is an
-- effect.
pub mod Handler
use umtp.Base.{
  ℕ, zero, suc, ◌+◌, ◌^◌, Bool, true, false, not, ◌&&◌, Option, none, some, List, [], ◌∷◌, ◌++◌,
  ltb, ◌==◌, if◌then◌else◌, take,
}
use umtp.Addr.{UmtpAddr}
use umtp.Errno.{Errno, negative}
use umtp.Session.{ApduConf, Sessions}
use umtp.Service.{Services, Call}
use umtp.Mpu.{Mpu}

abbrev pub protocol_version : ℕ
protocol_version = 1

abbrev pub SendData : Type 0
SendData = UmtpAddr → List ℕ → ℕ → ℕ

-- What leaves the stack: a frame for the data link, or the call of a service's handler. `overrun` is a
-- copy of `len` bytes into an array of `size`: from there on nothing is known of the program, and what
-- the model goes on to compute stands for nothing.
pub data Effect : Type 0 where
  sent : UmtpAddr → List ℕ → ℕ → Effect
  called : Call → Effect
  overrun : (size len : ℕ) → Effect

-- `struct umtp` at the address `self`, the static variables of session.c, apdu.c and service.c, and
-- the effects so far, oldest first.
pub record Umtp : Type 0 where
  pub self : ℕ
  pub sync_mode : Bool
  pub dl : Option SendData
  pub mpu : Option Mpu
  pub running : Bool
  pub conf : ApduConf
  pub sessions : Sessions
  pub services : Services
  pub effects : List Effect

-- A byte of an array. The callers' arrays are longer than every header.
abbrev pub byte_at : List ℕ → ℕ → ℕ
byte_at [] i = 0
byte_at (b ∷ bs) zero = b
byte_at (b ∷ bs) (suc i) = byte_at bs i

-- `encode_npdu`, with the length that it returns as the length of the list.
abbrev pub encode_npdu : List ℕ
encode_npdu = protocol_version ∷ []

-- A positive `int`.
abbrev pub positive : ℕ → Bool
positive len = not (len == 0) && ltb len (2 ^ 31)

-- A copy into an array of `size` bytes.
abbrev pub writes : (size len : ℕ) → Umtp → Umtp
writes size len u =
    if ltb size len then record u { effects = u.effects ++ overrun size len ∷ [] } else u

abbrev pub max_apdu : ℕ
max_apdu = 1024

-- The bytes of `tmp` in `npdu_send`.
abbrev pub max_npdu : ℕ
max_npdu = max_apdu + 1

pub npdu_emit : Errno → Umtp → Option SendData → UmtpAddr → List ℕ → ℕ → ℕ × Umtp
npdu_emit n u none dst frame len = (negative n.einval, u)
npdu_emit n u (some send_data) dst frame len =
    (send_data dst frame len, record u { effects = u.effects ++ sent dst frame len ∷ [] })

pub npdu_send : Errno → Umtp → UmtpAddr → List ℕ → ℕ → ℕ × Umtp
unfolding npdu_emit
npdu_send n u dst bs len =
    if positive len
    then npdu_emit n (writes max_npdu (1 + len) u) u.dl dst (encode_npdu ++ take len bs) (1 + len)
    else (negative n.einval, u)
