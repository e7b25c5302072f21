-- ===== src/Session/Free.antt =====
-- `umtp_free_session` ends, and hands out an identifier that no session has.
use umtp.Base.{
  ℕ, zero, suc, ◌+◌, ◌-◌, ◌%◌, ◌≤◌, ◌<◌, ◌≡◌, ◌≢◌, ◌⊎◌, inl, inr, refl, sym, ap, ◌∙◌, true, false,
  none, some, List, arith, length, ◌==◌, ==_ne, lt_ne, if◌then◌else◌, ltb, Bool-cases, u8_mod,
  u32_mod,
}
use umtp.Session.{
  Session, Sessions, ApduConf, max_umtp_session, session_get_index, next_id, opened, free_loop,
  free_fuel, umtp_free_session, umtp_get_session,
}
use umtp.Session.Table.{
  find, has, modify, session_get_index_cases, length-modify, find_of_has, find_of_not_has,
  find-modify_other, find-modify_new,
}
use umtp.Session.Valid.{IsValid, EntryIsValid, modify-Unique, modify-All}
use umtp.Session.Access.{get_session-find}
use umtp.Session.Count.{used, unused, used-modify_new}

-- The counter after `j` rounds: it goes up by one and passes over 0 when it wraps.
advance : ℕ → ℕ → ℕ
advance n j = if ltb (n + j) u32_mod then n + j else n + j + 1 - u32_mod

-- Within 256 rounds the counter takes every byte but 0 for its last byte.
reach :
    (n t : ℕ)
    → n < u32_mod
    → 0 < t
    → t < u8_mod
    → (j : ℕ) × (j < free_fuel) × (advance n j % u8_mod ≡ t)
unfolding advance
reach n t word lo hi = elim (Bool-cases (ltb (n + d) u32_mod)) [
  | inl e ↦ (d, omega arith, ground arith)
  | inr e ↦ (d - 1, omega arith, ground arith)
]
  where
    d : ℕ
    d = (t + u8_mod - n % u8_mod) % u8_mod

next_id-advance :
    (n j : ℕ) → n < u32_mod → j < free_fuel → advance (next_id n) j ≡ advance n (suc j)
unfolding advance next_id
next_id-advance n j word lt = ground arith

advance-zero : (n : ℕ) → n < u32_mod → n ≡ advance n 0
unfolding advance
advance-zero n word = ground arith

next_id-lt : (n : ℕ) → next_id n < u32_mod
unfolding next_id
next_id-lt n = ground arith

module _ (conf : ApduConf) (ss : List Session) (whole : length ss ≡ max_umtp_session)
    (free : has 0 ss ≡ true) where
  abbrev at_counter : ℕ → Sessions
  at_counter n = record { session_id = n; session = ss }

  -- What the loop returns when it ends at counter `n`.
  abbrev handed_out : ℕ → ℕ × Sessions
  handed_out n = (
    n % u8_mod,
    record { session_id = next_id n; session = modify 0 (opened conf (n % u8_mod)) ss },
  )

  free_here :
      (fuel n : ℕ)
      → has (n % u8_mod) ss ≡ false
      → free_loop conf (suc fuel) (at_counter n) ≡ some (handed_out n)
  unfolding free_loop
  free_here fuel n out = elim (session_get_index_cases ss (n % u8_mod) whole) [
    | inr (at, lt) ↦ cc
    | inl (_, idx) ↦ elim (session_get_index_cases ss 0 whole) [
      | inl (no_free, _) ↦ cc
      | inr (at, lt) ↦
          rw (idx, ==_ne (session_get_index ss 0) max_umtp_session (lt_ne lt), at.change)
    ]
  ]

  free_next :
      (fuel n : ℕ)
      → has (n % u8_mod) ss ≡ true
      → free_loop conf (suc fuel) (at_counter n) ≡ free_loop conf fuel (at_counter (next_id n))
  unfolding free_loop
  free_next fuel n taken = elim (session_get_index_cases ss (n % u8_mod) whole) [
    | inl (out, _) ↦ cc
    | inr (at, lt) ↦ rw (==_ne (session_get_index ss (n % u8_mod)) max_umtp_session (lt_ne lt))
  ]

  -- If one of the next rounds meets an identifier that is not in use, the loop ends at such a one.
  free_loop_ends :
      (fuel n j : ℕ)
      → n < u32_mod
      → fuel ≤ free_fuel
      → j < fuel
      → has (advance n j % u8_mod) ss ≡ false
      → (k : ℕ) × (k < u32_mod)
        × (has (k % u8_mod) ss ≡ false)
        × (free_loop conf fuel (at_counter n) ≡ some (handed_out k))
  unfolding advance
  free_loop_ends zero n j word small lt out = absurd (omega arith)
  free_loop_ends (suc fuel) n zero word small lt out =
      let here : has (n % u8_mod) ss ≡ false =
        ap (λ k. has (k % u8_mod) ss) (advance-zero n word) ∙ out in
      (n, word, here, free_here fuel n here)
  free_loop_ends (suc fuel) n (suc j) word small lt out = elim (Bool-cases (has (n % u8_mod) ss)) [
    | inr here ↦ (n, word, here, free_here fuel n here)
    | inl taken ↦
        let (k, bound, free, ends) =
          free_loop_ends fuel (next_id n) j (next_id-lt n) (omega arith) (omega arith)
            (ap (λ k. has (k % u8_mod) ss) (next_id-advance n j word (omega arith)) ∙ out) in
        (k, bound, free, free_next fuel n taken ∙ ends)
  ]

  -- Among 255 entries of which one is free, one of the identifiers 1, ..., 255 is not in use.
  free_loop-some :
      (n : ℕ)
      → n < u32_mod
      → (k : ℕ) × (k < u32_mod)
        × (has (k % u8_mod) ss ≡ false)
        × (free_loop conf free_fuel (at_counter n) ≡ some (handed_out k))
  free_loop-some n word =
      let (t, lo, hi, out) = unused ss max_umtp_session (omega arith) free in
      let (j, lt, there) = reach n t word lo (omega arith) in
      free_loop_ends free_fuel n j word (omega arith) lt (ap (λ i. has i ss) there ∙ out)

module _ (conf : ApduConf) {st : Sessions} (v : IsValid st) where
  -- What is known of a new identifier and of the table that it was entered in.
  abbrev pub Fresh : ℕ → Sessions → Session → Type 0
  Fresh id st' s =
      (0 < id)
      × (id < u8_mod)
      × (umtp_get_session st id ≡ none)
      × (umtp_get_session st' id ≡ some (opened conf id s))
      × ((j : ℕ) → j ≢ id → umtp_get_session st' j ≡ umtp_get_session st j)
      × IsValid st'

  module _ (k : ℕ) (out : has (k % u8_mod) st.session ≡ false)
      (free : has 0 st.session ≡ true) where
    abbrev id : ℕ
    id = k % u8_mod

    abbrev table : Sessions
    table = record { session_id = next_id k; session = modify 0 (opened conf id) st.session }

    id-ne-zero : id ≢ 0
    id-ne-zero e =
        let same : has id st.session ≡ has 0 st.session = ap (λ i. has i st.session) e in cc

    table-IsValid : IsValid table
    table-IsValid = record {
      whole = length-modify 0 (opened conf id) st.session ∙ v.whole;
      word = next_id-lt k;
      unique = modify-Unique 0 (opened conf id) id (λ s. refl) st.session (inr out) v.unique;
      entries =
          modify-All 0 (opened conf id) EntryIsValid (λ s e ok. (omega arith, inr refl, ok.2))
            st.session v.entries;
    }

    handed_out-Fresh : (s : Session) → find 0 st.session ≡ some s → Fresh id table s
    handed_out-Fresh s found = (
      omega (arith, id-ne-zero),
      omega arith,
      rw (get_session-find v id, ==_ne id 0 id-ne-zero) (find_of_not_has id st.session out),
      rw (get_session-find table-IsValid id, ==_ne id 0 id-ne-zero)
          (find-modify_new 0 (opened conf id) id (λ s. refl) st.session s found out),
      λ j ne. rw (get_session-find table-IsValid j, get_session-find v j) (others j ne),
      table-IsValid,
    )
      where
        others :
            (j : ℕ)
            → j ≢ id
            → (if j == 0 then none else find j table.session)
              ≡ (if j == 0 then none else find j st.session)
        others j ne =
            ground (arith, find-modify_other 0 (opened conf id) id (λ s. refl) j st.session)

  free_session-loop :
      has 0 st.session ≡ true → umtp_free_session conf st ≡ free_loop conf free_fuel st
  unfolding umtp_free_session
  free_session-loop free = elim (session_get_index_cases st.session 0 v.whole) [
    | inl (no_free, idx) ↦ cc
    | inr (at, lt) ↦ rw (==_ne (session_get_index st.session 0) max_umtp_session (lt_ne lt))
  ]

  free_session-none : has 0 st.session ≡ false → umtp_free_session conf st ≡ some (0, st)
  unfolding umtp_free_session
  free_session-none no_free = elim (session_get_index_cases st.session 0 v.whole) [
    | inl (_, idx) ↦ rw idx
    | inr (at, lt) ↦ cc
  ]

  pub free_session-some :
      (free : has 0 st.session ≡ true) (s : Session)
      → find 0 st.session ≡ some s
      → (id : ℕ) × (st' : Sessions) × (umtp_free_session conf st ≡ some (id, st')) × Fresh id st' s
  free_session-some free s found =
      let (k, bound, out, ends) =
        free_loop-some conf st.session v.whole free st.session_id v.word in
      (
        k % u8_mod,
        table k out free,
        free_session-loop free ∙ ends,
        handed_out-Fresh k out free s found,
      )

  -- One more entry is in use.
  pub free_session-used :
      (id' : ℕ) (st' : Sessions)
      → has 0 st.session ≡ true
      → umtp_free_session conf st ≡ some (id', st')
      → used st'.session ≡ suc (used st.session)
  free_session-used id' st' free ends =
      let (k, bound, out, here) =
        free_loop-some conf st.session v.whole free st.session_id v.word in
      ap (λ r. elim r as (λ x. ℕ) [ none ↦ 0 | some got ↦ used got.1.session ])
        (sym ends ∙ free_session-loop free ∙ here)
      ∙ used-modify_new (opened conf (k % u8_mod)) (λ s. id-ne-zero k out free) st.session free

  -- `umtp_free_session` always ends. If no entry is free it returns 0 and changes nothing; otherwise
  -- it returns an identifier between 1 and 255 that no session had, and from then on a session, with
  -- its timer set and not waiting, has that identifier, every other identifier finds the session that
  -- it found before, and the table is valid.
  pub free_session-Fresh :
      ((has 0 st.session ≡ false) × (umtp_free_session conf st ≡ some (0, st)))
      ⊎ ((id : ℕ) × (st' : Sessions) × (s : Session) × (umtp_free_session conf st ≡ some (id, st'))
          × Fresh id st' s)
  free_session-Fresh = elim (Bool-cases (has 0 st.session)) [
    | inr no_free ↦ inl (no_free, free_session-none no_free)
    | inl free ↦
        let (s, found) = find_of_has 0 st.session free in
        let (id, st', ends, fresh) = free_session-some free s found in inr (id, st', s, ends, fresh)
  ]
