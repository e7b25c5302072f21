-- ===== src/LinkedList/Safe.antt =====
-- The loops of list.h that let their body take entries out, and those that go backwards.
use umtp.Base.{
  ℕ, zero, suc, ◌<◌, ◌≡◌, refl, sym, ap, ◌∙◌, Bool, true, false, some, List, [], ◌∷◌, ◌++◌, arith,
  length, ◌==◌, if◌then◌else◌, Bool-cases, inl, inr, ==_refl,
}
use mathlib.Core.List.{append-nil, append_assoc}
use umtp.LinkedList.{Links, LoopBody, list_del, for_each_safe_from}
use umtp.LinkedList.Chain.{mem, Distinct, Chain, IsList, mem-append}
use umtp.LinkedList.Delete.{erase, list_del-IsList}

-- A body that takes out the entries that `d` chooses, and notes where it was.
abbrev pub delete_if : (ℕ → Bool) → LoopBody (List ℕ)
delete_if d pos (h, visited) = ((if d pos then list_del h pos else h), visited ++ pos ∷ [])

-- The entries that `d` does not choose.
abbrev pub left_by : (ℕ → Bool) → List ℕ → List ℕ
left_by d [] = []
left_by d (x ∷ xs) = if d x then left_by d xs else x ∷ left_by d xs

abbrev pub first_or : ℕ → List ℕ → ℕ
first_or head [] = head
first_or head (x ∷ xs) = x

-- The entry behind `ys` in a list.
next-behind :
    (h : Links) (a : ℕ) (ys : List ℕ) (z : ℕ) (zs : List ℕ) (b : ℕ)
    → Chain h a (ys ++ z ∷ zs) b
    → h.next z ≡ first_or b zs
next-behind h a [] z [] b c = c.2.0
next-behind h a [] z (y ∷ zs) b c = c.2.0
next-behind h a (x ∷ ys) z zs b c = next-behind h x ys z zs b c.2

erase-middle :
    (ys : List ℕ) (z : ℕ) (zs : List ℕ)
    → Distinct (ys ++ z ∷ zs)
    → erase z (ys ++ z ∷ zs) ≡ ys ++ zs
erase-middle [] z zs d = rw (==_refl z) refl
erase-middle (x ∷ ys) z zs d = ground (arith, mem-append x ys (z ∷ zs), erase-middle ys z zs d.1)

mem-middle : (ys : List ℕ) (z : ℕ) (zs : List ℕ) → mem z (ys ++ z ∷ zs) ≡ true
mem-middle [] z zs = ground arith
mem-middle (y ∷ ys) z zs = ground (arith, mem-middle ys z zs)

middle-ne :
    (head : ℕ) (ys : List ℕ) (z : ℕ) (zs : List ℕ)
    → mem head (ys ++ z ∷ zs) ≡ false
    → (z == head) ≡ false
middle-ne head ys z zs out = ground (arith, mem-append head ys (z ∷ zs))

for_each_safe_from-next :
    {S : Type 0} (fuel : ℕ) (body : LoopBody S) (st : Links × S) (z n : ℕ) (st' : Links × S)
    (head : ℕ)
    → (z == head) ≡ false
    → st.0.next z ≡ n
    → body z st ≡ st'
    → for_each_safe_from (suc fuel) body st z (st.0.next z) head
      ≡ for_each_safe_from fuel body st' n (st'.0.next n) head
unfolding for_each_safe_from
for_each_safe_from-next fuel body st z n st' head ne e done =
    rw (ne, for_each_safe_from)
      (ap (λ s. for_each_safe_from fuel body s (st.0.next z) (s.0.next (st.0.next z)) head) done
        ∙ ap (λ k. for_each_safe_from fuel body st' k (st'.0.next k) head) e)

module _ (d : ℕ → Bool) (head : ℕ) where
  -- The loop stands before `zs`; `ys` stay.
  pub for_each_safe_from-delete :
      (fuel : ℕ) (h : Links) (ys zs visited : List ℕ)
      → IsList h head (ys ++ zs)
      → length zs < fuel
      → (h' : Links) × (for_each_safe_from fuel
            (delete_if d)
            (h, visited)
            (first_or head zs)
            (h.next (first_or head zs))
            head
          ≡ some (h', visited ++ zs))
        × IsList h' head (ys ++ left_by d zs)
  unfolding for_each_safe_from
  for_each_safe_from-delete zero h ys zs visited l enough = absurd (omega arith)
  for_each_safe_from-delete (suc fuel) h ys [] visited l enough = (
    h,
    rw (==_refl head, for_each_safe_from) (ap (λ v. some (h, v)) (sym (append-nil visited))),
    l,
  )
  for_each_safe_from-delete (suc fuel) h ys (z ∷ zs) visited l enough = elim (Bool-cases (d z)) [
    | inl taken ↦
        let l' : IsList (list_del h z) head (ys ++ zs) =
          rw (erase-middle ys z zs l.distinct) at (list_del-IsList z l (mem-middle ys z zs)).0 in
        let (h', ends, l'') =
          for_each_safe_from-delete fuel (list_del h z) ys zs (visited ++ z ∷ []) l'
            (omega arith) in
        (
          h',
          for_each_safe_from-next fuel (delete_if d) (h, visited) z (first_or head zs)
                (list_del h z, visited ++ z ∷ []) head (middle-ne head ys z zs l.head_out)
                (next-behind h head ys z zs head l.chain)
                (ap (λ b. ((if b then list_del h z else h), visited ++ z ∷ [])) taken)
              ∙ ends
              ∙ ap (λ v. some (h', v)) (append_assoc visited (z ∷ []) zs),
          rw taken l'',
        )
    | inr kept ↦
        let l' : IsList h head ((ys ++ z ∷ []) ++ zs) = rw (append_assoc ys (z ∷ []) zs) l in
        let (h', ends, l'') =
          for_each_safe_from-delete fuel h (ys ++ z ∷ []) zs (visited ++ z ∷ []) l' (omega arith) in
        (
          h',
          for_each_safe_from-next fuel (delete_if d) (h, visited) z (first_or head zs)
                (h, visited ++ z ∷ []) head (middle-ne head ys z zs l.head_out)
                (next-behind h head ys z zs head l.chain)
                (ap (λ b. ((if b then list_del h z else h), visited ++ z ∷ [])) kept)
              ∙ ends
              ∙ ap (λ v. some (h', v)) (append_assoc visited (z ∷ []) zs),
          rw kept (rw (append_assoc ys (z ∷ []) (left_by d zs)) at l''),
        )
  ]
