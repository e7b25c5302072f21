-- ===== src/Mpu/Drain.antt =====
-- The inner loop of `mpu_task`: how a queue is emptied, and when it never is.
use umtp.Base.{
  ℕ, zero, suc, ◌≡◌, ◌≢◌, refl, ap, ◌∙◌, Bool, true, false, not, ◌||◌, Option, some, none, List, [],
  ◌∷◌, length, if◌then◌else◌, ◌==◌, ==_ne, ◌>>=◌, List-cases, inl, inr,
}
use umtp.RingBuf.{RingBuffer, empty}
use umtp.RingBuf.Valid.{IsValid}
use umtp.RingBuf.Move.{popped}
use umtp.RingBuf.Slots.{slots-empty, slots-front, slots-popped}
use umtp.Mpu.{
  MpuPacket, Mpu, Side, recv, send, queue_of, with_queue, Handler, Handlers, drop_packet,
  popped_queue, handled, handle_packet, mpu_msg_handle, mpu_round, mpu_drain,
}
use umtp.Mpu.Queue.{waiting}

abbrev pub queued : Side → Mpu → List MpuPacket
queued side mpu = waiting (queue_of side mpu) mpu.packets

pub drop_packet-popped :
    (side : Side) (mpu : Mpu) (pkt : MpuPacket) (rest : List MpuPacket)
    → queued side mpu ≡ pkt ∷ rest
    → drop_packet side mpu ≡ with_queue side (popped (queue_of side mpu)) mpu
unfolding drop_packet
drop_packet-popped side mpu pkt rest e =
    ap (λ r. with_queue side (popped_queue (queue_of side mpu) r) mpu)
      ((slots-front (queue_of side mpu) mpu.packets pkt rest e).3 (λ a. 0))

module _ {S : Type 0} (side : Side) where
  pub msg_handle-empty :
      (handler : Option (Handler S)) (mpu : Mpu) (s : S)
      → queued side mpu ≡ []
      → mpu_msg_handle side handler (mpu, s) ≡ some (mpu, s)
  unfolding mpu_msg_handle
  msg_handle-empty handler mpu s e = rw (slots-empty (queue_of side mpu) mpu.packets e) refl

  -- The oldest packet goes to the handler.
  pub msg_handle-front :
      (handler : Handler S) (mpu : Mpu) (s : S) (pkt : MpuPacket) (rest : List MpuPacket)
      → queued side mpu ≡ pkt ∷ rest
      → mpu_msg_handle side (some handler) (mpu, s)
        ≡ (handler pkt (mpu, s) >>= λ r. some (handled side r))
  unfolding mpu_msg_handle handle_packet
  msg_handle-front handler mpu s pkt rest e =
      let front = slots-front (queue_of side mpu) mpu.packets pkt rest e in
      rw (front.0, front.1) (ap (λ p. handler p (mpu, s) >>= λ r. some (handled side r)) front.2)

module _ {S : Type 0} (hs : Handlers S) where
  pub drain-done :
      (fuel : ℕ) (mpu : Mpu) (s : S)
      → queued recv mpu ≡ []
      → queued send mpu ≡ []
      → mpu_drain (suc fuel) hs (mpu, s) ≡ some (mpu, s)
  unfolding mpu_drain
  drain-done fuel mpu s e e' =
      rw (slots-empty mpu.recv_queue mpu.packets e, slots-empty mpu.send_queue mpu.packets e') refl

  pub drain-more_recv :
      (fuel : ℕ) (mpu : Mpu) (s : S) (pkt : MpuPacket) (rest : List MpuPacket)
      → queued recv mpu ≡ pkt ∷ rest
      → mpu_drain (suc fuel) hs (mpu, s) ≡ (mpu_round hs (mpu, s) >>= mpu_drain fuel hs)
  unfolding mpu_drain
  drain-more_recv fuel mpu s pkt rest e =
      ap
        (λ b.
          if not (empty (some mpu.send_queue)) || not b
          then (mpu_round hs (mpu, s) >>= mpu_drain fuel hs)
          else some (mpu, s))
        (slots-front mpu.recv_queue mpu.packets pkt rest e).0
      ∙ either_way (not (empty (some mpu.send_queue)))
    where
      either_way :
          (b : Bool)
          → (if b || true then (mpu_round hs (mpu, s) >>= mpu_drain fuel hs) else some (mpu, s))
            ≡ (mpu_round hs (mpu, s) >>= mpu_drain fuel hs)
      either_way true = refl
      either_way false = refl

  pub drain-more_send :
      (fuel : ℕ) (mpu : Mpu) (s : S) (pkt : MpuPacket) (rest : List MpuPacket)
      → queued send mpu ≡ pkt ∷ rest
      → mpu_drain (suc fuel) hs (mpu, s) ≡ (mpu_round hs (mpu, s) >>= mpu_drain fuel hs)
  unfolding mpu_drain
  drain-more_send fuel mpu s pkt rest e =
      rw ((slots-front mpu.send_queue mpu.packets pkt rest e).0) refl

-- The send handler always returns, and touches neither the queues nor their packets.
abbrev pub Quiet : {S : Type 0} → Handler S → Type 0
Quiet {S} g =
    (pkt : MpuPacket) (mpu : Mpu) (s : S)
    → (ret : ℕ) × (s' : S) × (g pkt (mpu, s) ≡ some (ret, mpu, s'))

module _ {S : Type 0} (h g : Handler S) where
  abbrev both : Handlers S
  both = record { recv_handler = some h; send_handler = some g }

  send_keeps_recv :
      (mpu : Mpu) (s : S)
      → Quiet g
      → (mpu' : Mpu) × (s' : S) × (mpu_msg_handle send (some g) (mpu, s) ≡ some (mpu', s'))
        × (queued recv mpu' ≡ queued recv mpu)
  unfolding handled drop_packet
  send_keeps_recv mpu s quiet = elim (List-cases (queued send mpu)) [
    | inl e ↦ (mpu, s, msg_handle-empty send (some g) mpu s e, refl)
    | inr (pkt, rest, e) ↦
        let (ret, s', done) = quiet pkt mpu s in
        (
          (handled send (ret, mpu, s')).0,
          (handled send (ret, mpu, s')).1,
          msg_handle-front send g mpu s pkt rest e
              ∙ ap (λ r. r >>= λ r. some (handled send r)) done,
          handled-queued (ret == 0) s',
        )
  ]
    where
      handled-queued :
          (b : Bool) (s' : S)
          → queued recv (if◌then◌else◌ {A = Mpu × S} b (drop_packet send mpu, s') (mpu, s')).0
            ≡ queued recv mpu
      handled-queued true s' = refl
      handled-queued false s' = refl

  recv_refused :
      (mpu : Mpu) (s : S) (pkt : MpuPacket) (rest : List MpuPacket) (e : ℕ)
      → queued recv mpu ≡ pkt ∷ rest
      → e ≢ 0
      → h pkt (mpu, s) ≡ some (e, mpu, s)
      → mpu_msg_handle recv (some h) (mpu, s) ≡ some (mpu, s)
  unfolding handled
  recv_refused mpu s pkt rest e front ne refused =
      msg_handle-front recv h mpu s pkt rest front
      ∙ ap (λ r. r >>= λ r. some (handled recv r)) refused
      ∙ rw (==_ne e 0 ne) refl

  -- As long as the receive handler refuses the oldest packet and changes nothing, the loop does not
  -- end, whatever the fuel.
  pub drain-refused :
      (fuel : ℕ) (mpu : Mpu) (s : S) (pkt : MpuPacket) (rest : List MpuPacket)
      → Quiet g
      → ((mpu : Mpu) (s : S) → (e : ℕ) × (e ≢ 0) × (h pkt (mpu, s) ≡ some (e, mpu, s)))
      → queued recv mpu ≡ pkt ∷ rest
      → mpu_drain fuel both (mpu, s) ≡ none
  unfolding mpu_round
  drain-refused zero mpu s pkt rest quiet refuses e = unfold mpu_drain in refl
  drain-refused (suc fuel) mpu s pkt rest quiet refuses e =
      let (err, ne, refused) = refuses mpu s in
      let (mpu', s', sent, kept) = send_keeps_recv mpu s quiet in
      drain-more_recv both fuel mpu s pkt rest e
      ∙ ap (λ r. r >>= mpu_msg_handle send (some g) >>= mpu_drain fuel both)
          (recv_refused mpu s pkt rest err e ne refused)
      ∙ ap (λ r. r >>= mpu_drain fuel both) sent
      ∙ drain-refused fuel mpu' s' pkt rest quiet refuses (kept ∙ e)

-- A round in which both handlers succeed.
pub round-both :
    {S : Type 0} (h g : Handler S) (mpu m1 m2 : Mpu) (s s1 s2 : S) (pkt pkt' : MpuPacket)
    (rest rest' : List MpuPacket)
    → queued recv mpu ≡ pkt ∷ rest
    → h pkt (mpu, s) ≡ some (0, m1, s1)
    → queued send (drop_packet recv m1) ≡ pkt' ∷ rest'
    → g pkt' (drop_packet recv m1, s1) ≡ some (0, m2, s2)
    → mpu_round (record { recv_handler = some h; send_handler = some g }) (mpu, s)
      ≡ some (drop_packet send m2, s2)
unfolding mpu_round handled
round-both h g mpu m1 m2 s s1 s2 pkt pkt' rest rest' e done e' done' =
    ap (λ r. r >>= mpu_msg_handle send (some g))
      (msg_handle-front recv h mpu s pkt rest e ∙ ap (λ r. r >>= λ r. some (handled recv r)) done)
    ∙ msg_handle-front send g (drop_packet recv m1) s1 pkt' rest' e'
    ∙ ap (λ r. r >>= λ r. some (handled send r)) done'

-- What a send handler that succeeds makes of the state, packet by packet.
abbrev pub fold_packets : {S : Type 0} → (MpuPacket → S → S) → List MpuPacket → S → S
fold_packets f [] s = s
fold_packets f (pkt ∷ pkts) s = fold_packets f pkts (f pkt s)

-- What the send handler does with each of the packets, which it does not refuse, in every state that
-- has the property `P`.
abbrev pub Delivers :
    {S : Type 0} → (S → Type 0) → Handler S → (MpuPacket → S → S) → List MpuPacket → Type 0
Delivers P g f [] = Unit {0}
Delivers {S} P g f (pkt ∷ pkts) =
    ((mpu : Mpu) (s : S) → P s → (g pkt (mpu, s) ≡ some (0, mpu, f pkt s)) × P (f pkt s))
    × Delivers P g f pkts

module _ {S : Type 0} (P : S → Type 0) (h : Option (Handler S)) (g : Handler S)
    (f : MpuPacket → S → S) where
  abbrev sending : Handlers S
  sending = record { recv_handler = h; send_handler = some g }

  round-send :
      (mpu : Mpu) (s : S) (pkt : MpuPacket) (rest : List MpuPacket)
      → queued recv mpu ≡ []
      → queued send mpu ≡ pkt ∷ rest
      → g pkt (mpu, s) ≡ some (0, mpu, f pkt s)
      → mpu_round sending (mpu, s)
        ≡ some (record mpu { send_queue = popped mpu.send_queue }, f pkt s)
  unfolding mpu_round handled
  round-send mpu s pkt rest none_in e done =
      ap (λ r. r >>= mpu_msg_handle send (some g)) (msg_handle-empty recv h mpu s none_in)
      ∙ msg_handle-front send g mpu s pkt rest e
      ∙ ap (λ r. r >>= λ r. some (handled send r)) done
      ∙ ap (λ m. some (m, f pkt s)) (drop_packet-popped send mpu pkt rest e)

  -- With nothing received, one round for each packet and one more end the loop: the packets have gone
  -- to the send handler in their order, and the send queue is empty.
  pub drain-send :
      (mpu : Mpu) (s : S) (pkts : List MpuPacket)
      → IsValid mpu.send_queue
      → queued recv mpu ≡ []
      → queued send mpu ≡ pkts
      → P s
      → Delivers P g f pkts
      → (q : RingBuffer) × (mpu_drain (suc (length pkts)) sending (mpu, s)
          ≡ some (record mpu { send_queue = q }, fold_packets f pkts s))
        × IsValid q
        × (waiting q mpu.packets ≡ [])
  drain-send mpu s [] v none_in e p d = (mpu.send_queue, drain-done sending 0 mpu s none_in e, v, e)
  drain-send mpu s (pkt ∷ pkts) v none_in e p (d, ds) =
      let (done, p') = d mpu s p in
      let (w, rest) = slots-popped mpu.send_queue mpu.packets pkt pkts v e in
      let (q, ended, valid, empty_after) =
        drain-send (record mpu { send_queue = popped mpu.send_queue }) (f pkt s) pkts w none_in rest
          p' ds in
      (
        q,
        drain-more_send sending (suc (length pkts)) mpu s pkt pkts e
            ∙ ap (λ r. r >>= mpu_drain (suc (length pkts)) sending)
                (round-send mpu s pkt pkts none_in e done)
            ∙ ended,
        valid,
        empty_after,
      )
