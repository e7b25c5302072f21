-- ===== src/Errno.antt =====
-- The numbers of <errno.h>, which the C library gives: distinct small positive integers, of which
-- the code returns the negatives. An `int` is its 32-bit pattern.
use umtp.Base.{ℕ, ◌<◌, ◌≢◌, arith, sub32, ◌^◌}

pub record Errno : Type 0 where
  pub einval : ℕ
  pub enoent : ℕ
  pub eexist : ℕ
  pub eproto : ℕ
  pub enomem : ℕ
  pub etimedout : ℕ
  pub ebadf : ℕ

abbrev pub IsErrno : ℕ → Type 0
IsErrno e = (0 < e) × (e < 2 ^ 12)

-- What the code relies on.
pub record Positive (n : Errno) : Type 0 where
  pub einval_pos : IsErrno n.einval
  pub enoent_pos : IsErrno n.enoent
  pub eexist_pos : IsErrno n.eexist
  pub eproto_pos : IsErrno n.eproto
  pub enomem_pos : IsErrno n.enomem
  pub etimedout_pos : IsErrno n.etimedout
  pub ebadf_pos : IsErrno n.ebadf

-- `-e`
abbrev pub negative : ℕ → ℕ
negative e = sub32 0 e

pub negative-ne-zero : (e : ℕ) → IsErrno e → negative e ≢ 0
negative-ne-zero e p = omega arith
