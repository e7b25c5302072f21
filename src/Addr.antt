-- ===== src/Addr.antt =====
-- The address of a peer, `struct umtp_addr` of include/umtp_dl.h: seven bytes, of which an IPv4
-- address takes four and a port two. The length 0 stands for the broadcast address.
use umtp.Base.{ℕ, List}

pub record UmtpAddr : Type 0 where
  pub addr_len : ℕ
  pub addr : List ℕ
