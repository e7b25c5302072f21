-- ===== src/Session/Table.antt =====
-- The table by identifier: the first entry with an identifier, and a change of it. The index that
-- `session_get_index` computes leads to that entry.
use umtp.Base.{
  ℕ, suc, ◌+◌, ◌≤◌, ◌<◌, ◌≡◌, ◌≢◌, ◌⊎◌, inl, inr, refl, ap, ◌∙◌, Bool, true, false, Option, none,
  some, List, [], ◌∷◌, arith, ◌==◌, if◌then◌else◌, Bool-cases, length, get_elem?,
}
use umtp.Session.{Session, max_umtp_session, get_index_from, session_get_index, update_at}

abbrev pub find : ℕ → List Session → Option Session
find id [] = none
find id (s ∷ ss) = if s.session_id == id then some s else find id ss

abbrev pub modify : ℕ → (Session → Session) → List Session → List Session
modify id f [] = []
modify id f (s ∷ ss) = if s.session_id == id then f s ∷ ss else s ∷ modify id f ss

abbrev pub has : ℕ → List Session → Bool
has id [] = false
has id (s ∷ ss) = if s.session_id == id then true else has id ss

-- `k` is the index of the first entry with identifier `id`.
pub record At (ss : List Session) (id k : ℕ) : Type 0 where
  pub below : k < length ss
  pub entry : get_elem? ss k ≡ find id ss
  pub change : (f : Session → Session) → update_at ss k f ≡ modify id f ss
  pub hit : has id ss ≡ true

At-here :
    (s : Session) (ss : List Session) (id : ℕ) → (s.session_id == id) ≡ true → At (s ∷ ss) id 0
unfolding update_at
At-here s ss id e = record { below = omega arith; entry = rw e; change = λ f. rw e; hit = rw e }

At-there :
    (s : Session) (ss : List Session) (id k : ℕ)
    → (s.session_id == id) ≡ false
    → At ss id k
    → At (s ∷ ss) id (suc k)
unfolding update_at
At-there s ss id k e at = record {
  below = omega (arith, at.below);
  entry = rw e at.entry;
  change = λ f. rw e (ap (◌∷◌ s) (at.change f));
  hit = rw e at.hit;
}

get_index_from_cases :
    (ss : List Session) (id i : ℕ)
    → i + length ss ≤ max_umtp_session
    → ((has id ss ≡ false) × (get_index_from i ss id ≡ max_umtp_session))
      ⊎ ((k : ℕ) × (get_index_from i ss id ≡ i + k) × At ss id k)
unfolding get_index_from
get_index_from_cases [] id i h = inl (refl, refl)
get_index_from_cases (s ∷ ss) id i h = elim (Bool-cases (s.session_id == id)) [
  | inl e ↦ inr (0, rw e (omega arith), At-here s ss id e)
  | inr e ↦ elim (get_index_from_cases ss id (i + 1) (omega arith)) [
    | inl (out, idx) ↦ inl (rw e out, rw e idx)
    | inr (k, idx, at) ↦ inr (suc k, rw e (idx ∙ omega arith), At-there s ss id k e at)
  ]
]

-- `session_get_index` returns 255 if no entry has the identifier, and otherwise the index of the
-- first entry that has it.
pub session_get_index_cases :
    (ss : List Session) (id : ℕ)
    → length ss ≡ max_umtp_session
    → ((has id ss ≡ false) × (session_get_index ss id ≡ max_umtp_session))
      ⊎ (At ss id (session_get_index ss id) × (session_get_index ss id < max_umtp_session))
unfolding session_get_index
session_get_index_cases ss id full = elim (get_index_from_cases ss id 0 (omega arith)) [
  | inl out ↦ inl out
  | inr (k, idx, at) ↦
      let e : session_get_index ss id ≡ k = omega (arith, idx) in
      inr (rw e at, omega (arith, at.below))
]

module _ (id : ℕ) where
  pub find_of_not_has : (ss : List Session) → has id ss ≡ false → find id ss ≡ none
  find_of_not_has [] h = refl
  find_of_not_has (s ∷ ss) h = ground (arith, find_of_not_has ss)

  pub find_of_has : (ss : List Session) → has id ss ≡ true → (s : Session) × (find id ss ≡ some s)
  find_of_has [] h = cc
  find_of_has (s ∷ ss) h = elim (Bool-cases (s.session_id == id)) [
    | inl e ↦ (s, rw e)
    | inr e ↦ let (t, found) = find_of_has ss (rw e at h) in (t, rw e found)
  ]

  pub modify_of_not_has :
      (f : Session → Session) (ss : List Session) → has id ss ≡ false → modify id f ss ≡ ss
  modify_of_not_has f [] h = refl
  modify_of_not_has f (s ∷ ss) h = ground (arith, modify_of_not_has f ss)

  pub length-modify :
      (f : Session → Session) (ss : List Session) → length (modify id f ss) ≡ length ss
  length-modify f [] = refl
  length-modify f (s ∷ ss) = ground (arith, length-modify f ss)

  pub find-session_id : (ss : List Session) (t : Session) → find id ss ≡ some t → t.session_id ≡ id
  find-session_id [] t h = cc
  find-session_id (s ∷ ss) t h = ground (arith, find-session_id ss t)

  abbrev pub map_entry : (Session → Session) → Option Session → Option Session
  map_entry f none = none
  map_entry f (some s) = some (f s)

  -- A change of an entry that keeps its identifier.
  module _ (f : Session → Session) (same : (s : Session) → (f s).session_id ≡ s.session_id) where
    pub find-modify_self : (ss : List Session) → find id (modify id f ss) ≡ map_entry f (find id ss)
    find-modify_self [] = refl
    find-modify_self (s ∷ ss) = ground (arith, same s, find-modify_self ss)

    pub find-modify_ne : (j : ℕ) (ss : List Session) → j ≢ id → find j (modify id f ss) ≡ find j ss
    find-modify_ne j [] ne = refl
    find-modify_ne j (s ∷ ss) ne = ground (arith, same s, find-modify_ne j ss ne)

  -- A change of an entry that gives it the identifier `n`.
  module _ (f : Session → Session) (n : ℕ) (to : (s : Session) → (f s).session_id ≡ n) where
    pub find-modify_other :
        (j : ℕ) (ss : List Session) → j ≢ id → j ≢ n → find j (modify id f ss) ≡ find j ss
    find-modify_other j [] ne ne' = refl
    find-modify_other j (s ∷ ss) ne ne' = ground (arith, to s, find-modify_other j ss ne ne')

    pub find-modify_new :
        (ss : List Session) (s : Session)
        → find id ss ≡ some s
        → has n ss ≡ false
        → find n (modify id f ss) ≡ some (f s)
    find-modify_new [] s found out = cc
    find-modify_new (t ∷ ss) s found out = ground (arith, to t, find-modify_new ss s)
