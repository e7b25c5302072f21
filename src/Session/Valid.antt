-- ===== src/Session/Valid.antt =====
-- The invariant of the table: no two sessions share an identifier, and no free entry is waiting.
use umtp.Base.{
  ℕ, ◌<◌, ◌≡◌, ◌≢◌, ◌⊎◌, refl, false, some, inl, inr, ◌==◌, Bool-cases, List, [], ◌∷◌, arith,
  length, u8_mod, u32_mod, ap, zero, suc, replicate, length-replicate, ==_ne, sym,
}
use mathlib.Core.Path.{subst}
use native.Mathlib.Decide.{ℕ_discrete}
use umtp.Session.{Session, Sessions, max_umtp_session, blank, initial}
use umtp.Session.Table.{find, has, modify}

abbrev pub Unique : List Session → Type 0
Unique [] = Unit {0}
Unique (s ∷ ss) = ((s.session_id ≡ 0) ⊎ (has s.session_id ss ≡ false)) × Unique ss

-- MAX_PDU, which is `MAX_APDU+MAX_NPDU` with `MAX_NPDU` for `MAX_APDU + 1`.
abbrev pub max_pdu : ℕ
max_pdu = 2049

abbrev pub EntryIsValid : Session → Type 0
EntryIsValid s =
    (s.session_id < u8_mod) × ((s.session_id ≢ 0) ⊎ (s.waiting ≡ false)) × (length s.pdu ≡ max_pdu)

abbrev pub All : (Session → Type 0) → List Session → Type 0
All P [] = Unit {0}
All P (s ∷ ss) = P s × All P ss

pub record IsValid (st : Sessions) : Type 0 where
  pub whole : length st.session ≡ max_umtp_session
  pub word : st.session_id < u32_mod
  pub unique : Unique st.session
  pub entries : All EntryIsValid st.session

module _ (id : ℕ) (f : Session → Session) where
  -- A change of an entry that keeps its identifier.
  pub has-modify_same :
      ((s : Session) → (f s).session_id ≡ s.session_id)
      → (j : ℕ) (ss : List Session) → has j (modify id f ss) ≡ has j ss
  has-modify_same same j [] = refl
  has-modify_same same j (s ∷ ss) = ground (arith, same s, has-modify_same same j ss)

  pub modify_same-Unique :
      ((s : Session) → (f s).session_id ≡ s.session_id)
      → (ss : List Session) → Unique ss
      → Unique (modify id f ss)
  modify_same-Unique same [] u = tt
  modify_same-Unique same (s ∷ ss) u =
      ground (arith, same s, has-modify_same same s.session_id ss, modify_same-Unique same ss)

  -- A change of an entry that gives it the identifier `n`.
  module _ (n : ℕ) (to : (s : Session) → (f s).session_id ≡ n) where
    pub has-modify_ne :
        (j : ℕ) (ss : List Session) → j ≢ n → has j ss ≡ false → has j (modify id f ss) ≡ false
    has-modify_ne j [] ne h = refl
    has-modify_ne j (s ∷ ss) ne h = ground (arith, to s, has-modify_ne j ss ne)

    pub modify-Unique :
        (ss : List Session) → (n ≡ 0) ⊎ (has n ss ≡ false) → Unique ss → Unique (modify id f ss)
    modify-Unique [] out u = tt
    modify-Unique (s ∷ ss) out u =
        ground (arith, to s, has-modify_ne s.session_id ss, modify-Unique ss)

  pub modify-All :
      (P : Session → Type 0)
      → ((s : Session) → s.session_id ≡ id → P s → P (f s))
      → (ss : List Session) → All P ss
      → All P (modify id f ss)
  modify-All P keep [] a = tt
  modify-All P keep (s ∷ ss) (p, a) = ground (arith, keep s, modify-All P keep ss a)

  -- In a table with no identifier twice, an entry that gets another identifier leaves none.
  pub has-modify_gone :
      (n : ℕ)
      → ((s : Session) → (f s).session_id ≡ n)
      → (ss : List Session) → id ≢ 0
      → id ≢ n
      → Unique ss
      → has id (modify id f ss) ≡ false
  has-modify_gone n to [] pos ne u = refl
  has-modify_gone n to (s ∷ ss) pos ne u = ground (arith, to s, has-modify_gone n to ss pos ne)

pub All-find :
    (P : Session → Type 0) (id : ℕ) (ss : List Session) (s : Session)
    → All P ss
    → find id ss ≡ some s
    → P s
All-find P id [] s a found = cc
All-find P id (t ∷ ss) s (p, a) found = elim (Bool-cases (t.session_id == id)) [
  | inl e ↦ let same : t ≡ s = ground arith in subst P same p
  | inr e ↦ All-find P id ss s a (rw e at found)
]

All-replicate : (P : Session → Type 0) (s : Session) → P s → (n : ℕ) → All P (replicate n s)
All-replicate P s p zero = tt
All-replicate P s p (suc n) = (p, All-replicate P s p n)

Unique-replicate : (s : Session) → s.session_id ≡ 0 → (n : ℕ) → Unique (replicate n s)
Unique-replicate s e zero = tt
Unique-replicate s e (suc n) = (inl e, Unique-replicate s e n)

blank-EntryIsValid : EntryIsValid blank
blank-EntryIsValid = (omega arith, inr refl, length-replicate {A = ℕ} max_pdu 0)

has-replicate : (j : ℕ) (s : Session) → j ≢ s.session_id → (n : ℕ) → has j (replicate n s) ≡ false
has-replicate j s ne zero = refl
has-replicate j s ne (suc n) = rw (==_ne s.session_id j (λ e. ne (sym e))) (has-replicate j s ne n)

Unique-cons_blank : (s : Session) (n : ℕ) → Unique (s ∷ replicate n blank)
Unique-cons_blank s n = elim (ℕ_discrete s.session_id 0) [
  | yes e ↦ (inl e, Unique-replicate blank refl n)
  | no ne ↦ (inr (has-replicate s.session_id blank ne n), Unique-replicate blank refl n)
]

-- A table with one entry before blank ones.
pub one_entry-IsValid :
    (id : ℕ) (s : Session)
    → id < u32_mod
    → EntryIsValid s
    → IsValid (record { session_id = id; session = s ∷ replicate 254 blank })
one_entry-IsValid id s word ok = record {
  whole = ap suc (length-replicate 254 blank);
  word = word;
  unique = Unique-cons_blank s 254;
  entries = (ok, All-replicate EntryIsValid blank blank-EntryIsValid 254);
}

-- The table is valid as the program starts.
pub initial-IsValid : IsValid initial
unfolding initial
initial-IsValid = one_entry-IsValid 1 blank (omega arith) blank-EntryIsValid
