-- ===== src/Mpu/Clock.antt =====
-- `get_abstime` of core/mpu.c: the time until which `mpu_task` waits. `gettimeofday` and the macro
-- `timeradd` are arguments.
use umtp.Base.{ℕ, ◌+◌, ◌*◌, ◌/◌, ◌%◌, ◌^◌, ◌<◌, ◌≡◌, arith}

pub record Timeval : Type 0 where
  pub tv_sec : ℕ
  pub tv_usec : ℕ

pub record Timespec : Type 0 where
  pub tv_sec : ℕ
  pub tv_nsec : ℕ

-- An `unsigned long` has 64 bits.
pub get_abstime :
    (timeradd : Timeval → Timeval → Timeval) (now : Timeval) (milliseconds : ℕ) → Timespec
get_abstime timeradd now milliseconds =
    let offset : Timeval = record { tv_sec = 0; tv_usec = milliseconds * 1000 % 2 ^ 64 } in
    let result = timeradd now offset in
    record {
      tv_sec = result.tv_sec + result.tv_usec / 1000000;
      tv_nsec = result.tv_usec % 1000000 * 1000;
    }

abbrev pub microseconds : Timeval → ℕ
microseconds t = t.tv_sec * 1000000 + t.tv_usec

abbrev pub nanoseconds : Timespec → ℕ
nanoseconds t = t.tv_sec * 1000000000 + t.tv_nsec

-- `timeradd` adds two times.
abbrev pub Adds : (Timeval → Timeval → Timeval) → Type 0
Adds timeradd = (a b : Timeval) → microseconds (timeradd a b) ≡ microseconds a + microseconds b

-- With a `timeradd` that adds, even if it leaves a second or more among the microseconds, and with
-- less than 2 ^ 50 milliseconds: the time is that many milliseconds after now, in seconds and less
-- than a second of nanoseconds, as `pthread_cond_timedwait` wants it.
pub get_abstime-later :
    (timeradd : Timeval → Timeval → Timeval) (now : Timeval) (milliseconds : ℕ)
    → Adds timeradd
    → milliseconds < 2 ^ 50
    → let until = get_abstime timeradd now milliseconds in
      (nanoseconds until ≡ microseconds now * 1000 + milliseconds * 1000000)
      × (until.tv_nsec < 1000000000)
unfolding get_abstime
get_abstime-later timeradd now milliseconds adds few =
    let offset : Timeval = record { tv_sec = 0; tv_usec = milliseconds * 1000 % 2 ^ 64 } in
    (omega (arith, adds now offset), omega arith)
