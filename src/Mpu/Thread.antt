-- ===== src/Mpu/Thread.antt =====
-- The outer loop of `mpu_task`.
use umtp.Base.{
  ℕ, zero, suc, ◌+◌, ◌≡◌, ◌≢◌, arith, refl, ap, ◌∙◌, Bool, true, false, not, ◌||◌, Option, some,
  none, List, [], ◌∷◌, ==_ne, ==_refl, if◌then◌else◌, ◌>>=◌,
}
use umtp.Errno.{Errno}
use umtp.RingBuf.{empty}
use umtp.Mpu.{Mpu, Handlers, mpu_round, mpu_drain, mpu_wake, mpu_task}

module _ {S : Type 0} (hs : Handlers S) where
  -- More fuel gives the same result.
  pub drain-more :
      (fuel more : ℕ) (st r : Mpu × S)
      → mpu_drain fuel hs st ≡ some r
      → mpu_drain (fuel + more) hs st ≡ some r
  unfolding mpu_drain
  drain-more zero more st r e = cc
  drain-more (suc fuel) more st r e =
      ap (λ k. mpu_drain k hs st) one_less
      ∙ busy (λ st'. drain-more fuel more st' r)
          (not (empty (some st.0.send_queue)) || not (empty (some st.0.recv_queue))) e
    where
      one_less : suc fuel + more ≡ suc (fuel + more)
      one_less = omega arith

      Enough : Type 0
      Enough =
          (st' : Mpu × S) → mpu_drain fuel hs st' ≡ some r → mpu_drain (fuel + more) hs st' ≡ some r

      more_next :
          Enough
          → (o : Option (Mpu × S)) → (o >>= mpu_drain fuel hs) ≡ some r
          → (o >>= mpu_drain (fuel + more) hs) ≡ some r
      more_next enough none e = cc
      more_next enough (some st') e = enough st' e

      busy :
          Enough
          → (b : Bool) → (if b then (mpu_round hs st >>= mpu_drain fuel hs) else some st) ≡ some r
          → (if b then (mpu_round hs st >>= mpu_drain (fuel + more) hs) else some st) ≡ some r
      busy enough true e = more_next enough (mpu_round hs st) e
      busy enough false e = e

  pub task-ends :
      (n : Errno) (fuel : ℕ) (st : Mpu × S)
      → mpu_task n fuel hs [] st ≡ some (st.0.running, st.0, st.1)
  unfolding mpu_task
  task-ends n fuel st = refl

  module _ (n : Errno) (fuel : ℕ) (others : Mpu × S → Mpu × S)
      (waits : List ((Mpu × S → Mpu × S) × ℕ)) (st : Mpu × S) (run : st.0.running ≡ true) where
    later : Option (Bool × Mpu × S) → Option (Bool × Mpu × S)
    later w = w >>= λ r. if r.0 then mpu_task n fuel hs waits (r.1, r.2) else some r

    runs_on :
        (ret : ℕ)
        → mpu_task n fuel hs ((others, ret) ∷ waits) st ≡ later (mpu_wake n fuel hs ret (others st))
    unfolding mpu_task later
    runs_on ret =
        ap (λ b. if b then later (mpu_wake n fuel hs ret (others st)) else some (false, st.0, st.1))
          run

    -- The thread is woken, and the loop over the queues ends.
    pub task-signalled :
        (r : Mpu × S)
        → mpu_drain fuel hs (others st) ≡ some r
        → mpu_task n fuel hs ((others, 0) ∷ waits) st ≡ mpu_task n fuel hs waits r
    unfolding mpu_wake later
    task-signalled r e = runs_on 0 ∙ ap (λ d. later (d >>= λ r. some (true, r.0, r.1))) e

    -- It has waited a second.
    pub task-timeout :
        n.etimedout ≢ 0
        → mpu_task n fuel hs ((others, n.etimedout) ∷ waits) st
          ≡ mpu_task n fuel hs waits (others st)
    unfolding mpu_wake later
    task-timeout ne = runs_on n.etimedout ∙ ap later timed_out
      where
        timed_out :
            mpu_wake n fuel hs n.etimedout (others st) ≡ some (true, (others st).0, (others st).1)
        timed_out = rw (==_ne n.etimedout 0 ne, ==_refl n.etimedout) refl
