-- ===== src/Session/Count.antt =====
-- How many entries of the table are in use, and so that a free entry means an unused identifier.
use umtp.Base.{
  ℕ, zero, suc, ◌≤◌, ◌<◌, ◌≡◌, ◌≢◌, ◌⊎◌, inl, inr, Bool-cases, refl, true, false, List, [], ◌∷◌,
  arith, length, ◌==◌, if◌then◌else◌, replicate,
}
use native.Mathlib.Decide.{ℕ_discrete}
use umtp.Session.{Session, max_umtp_session, blank, initial}
use umtp.Session.Table.{has, modify}

abbrev pub used : List Session → ℕ
used [] = 0
used (s ∷ ss) = if s.session_id == 0 then used ss else suc (used ss)

remove : ℕ → List Session → List Session
remove id [] = []
remove id (s ∷ ss) = if s.session_id == id then ss else s ∷ remove id ss

used-remove :
    (id : ℕ) (ss : List Session) → id ≢ 0 → has id ss ≡ true → used ss ≡ suc (used (remove id ss))
unfolding remove
used-remove id [] ne h = cc
used-remove id (s ∷ ss) ne h = ground (arith, used-remove id ss)

has-remove : (id j : ℕ) (ss : List Session) → j ≢ id → has j (remove id ss) ≡ has j ss
unfolding remove
has-remove id j [] ne = refl
has-remove id j (s ∷ ss) ne = ground (arith, has-remove id j ss)

le-used : (k : ℕ) (ss : List Session) → ((t : ℕ) → 0 < t → t ≤ k → has t ss ≡ true) → k ≤ used ss
le-used zero ss all = omega arith
le-used (suc k) ss all =
    let there : has (suc k) ss ≡ true = all (suc k) (omega arith) (omega arith) in
    let fewer : used ss ≡ suc (used (remove (suc k) ss)) =
      used-remove (suc k) ss (omega arith) there in
    omega (
      arith,
      le-used k (remove (suc k) ss)
          (λ t lo hi. rw (has-remove (suc k) t ss (omega arith)) (all t lo (omega arith))),
    )

used-le-length : (ss : List Session) → used ss ≤ length ss
used-le-length [] = omega arith
used-le-length (s ∷ ss) = ground (arith, used-le-length ss)

used-lt-length : (ss : List Session) → has 0 ss ≡ true → used ss < length ss
used-lt-length [] h = cc
used-lt-length (s ∷ ss) h = ground (arith, used-lt-length ss, used-le-length ss)

unused_or_all :
    (k : ℕ) (ss : List Session)
    → ((t : ℕ) × (0 < t) × (t ≤ k) × (has t ss ≡ false))
      ⊎ ((t : ℕ) → 0 < t → t ≤ k → has t ss ≡ true)
unused_or_all zero ss = inr (λ t lo hi. absurd (omega arith))
unused_or_all (suc k) ss = elim (unused_or_all k ss) [
  | inl (t, lo, hi, out) ↦ inl (t, lo, omega arith, out)
  | inr all ↦ elim (Bool-cases (has (suc k) ss)) [
    | inr out ↦ inl (suc k, omega arith, omega arith, out)
    | inl last ↦ inr (λ t lo hi. elim (ℕ_discrete t (suc k)) [
      | yes e ↦ rw e last
      | no ne ↦ all t lo (omega arith)
    ])
  ]
]

-- With a free entry in a table of `k` entries, one of the identifiers 1, ..., k is not in use.
pub unused :
    (ss : List Session) (k : ℕ)
    → length ss ≤ k
    → has 0 ss ≡ true
    → (t : ℕ) × (0 < t) × (t ≤ k) × (has t ss ≡ false)
unused ss k short free = elim (unused_or_all k ss) [
  | inl found ↦ found
  | inr all ↦ absurd (omega (arith, le-used k ss all, used-lt-length ss free))
]

pub has-used : (ss : List Session) → used ss < length ss → has 0 ss ≡ true
has-used [] lt = absurd (omega arith)
has-used (s ∷ ss) lt = ground (arith, has-used ss)

module _ (f : Session → Session) where
  -- A free entry gets an identifier.
  pub used-modify_new :
      ((s : Session) → (f s).session_id ≢ 0)
      → (ss : List Session) → has 0 ss ≡ true
      → used (modify 0 f ss) ≡ suc (used ss)
  used-modify_new to [] free = cc
  used-modify_new to (s ∷ ss) free = ground (arith, to s, used-modify_new to ss)

  -- A change of an entry that keeps its identifier.
  pub used-modify_same :
      ((s : Session) → (f s).session_id ≡ s.session_id)
      → (id : ℕ) (ss : List Session) → used (modify id f ss) ≡ used ss
  used-modify_same same id [] = refl
  used-modify_same same id (s ∷ ss) = ground (arith, same s, used-modify_same same id ss)

used-replicate : (k : ℕ) → used (replicate k blank) ≡ 0
used-replicate zero = refl
used-replicate (suc k) = used-replicate k

-- As the program starts, no session is in use.
pub used-initial : used initial.session ≡ 0
unfolding initial
used-initial = used-replicate max_umtp_session
