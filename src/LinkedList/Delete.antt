-- ===== src/LinkedList/Delete.antt =====
-- `list_del` takes an entry out, wherever it stands.
use umtp.Base.{
  ℕ, ◌≡◌, refl, true, false, List, [], ◌∷◌, arith, ◌==◌, if◌then◌else◌, Bool-cases, ==_iff, ◌⊎◌,
  inl, inr,
}
use umtp.LinkedList.{Links, list_del}
use umtp.LinkedList.Chain.{mem, Distinct, Chain, IsList, Chain-congr, SameOutside}

abbrev pub erase : ℕ → List ℕ → List ℕ
erase e [] = []
erase e (x ∷ xs) = if x == e then xs else x ∷ erase e xs

mem-erase : (p e : ℕ) (xs : List ℕ) → mem p xs ≡ false → mem p (erase e xs) ≡ false
mem-erase p e [] out = refl
mem-erase p e (x ∷ xs) out = ground (arith, mem-erase p e xs)

not-mem-erase : (e : ℕ) (xs : List ℕ) → Distinct xs → mem e (erase e xs) ≡ false
not-mem-erase e [] d = refl
not-mem-erase e (x ∷ xs) (o, d) = ground (arith, not-mem-erase e xs d)

Distinct-erase : (e : ℕ) (xs : List ℕ) → Distinct xs → Distinct (erase e xs)
Distinct-erase e [] d = tt
Distinct-erase e (x ∷ xs) (o, d) = ground (arith, mem-erase x e xs, Distinct-erase e xs d)

-- The two neighbours of an entry.
pub neighbours :
    (h : Links) (a e b : ℕ) (xs : List ℕ)
    → Chain h a xs b
    → mem e xs ≡ true
    → (mem (h.prev e) (a ∷ xs) ≡ true) × ((mem (h.next e) xs ≡ true) ⊎ (h.next e ≡ b))
neighbours h a e b [] c m = cc
neighbours h a e b (x ∷ []) c m = ground arith
neighbours h a e b (x ∷ y ∷ ys) (i, j, c) m = ground (arith, neighbours h x e b (y ∷ ys) c)

del_front :
    (h : Links) (a e b : ℕ) (xs : List ℕ)
    → Chain h a (e ∷ xs) b
    → mem a (e ∷ xs) ≡ false
    → mem b (e ∷ xs) ≡ false
    → Distinct (e ∷ xs)
    → Chain (list_del h e) a xs b
unfolding list_del
del_front h a e b [] c out out' d = ground arith
del_front h a e b (y ∷ ys) (i, j, (k, l, c)) out out' d = (
  ground arith,
  ground arith,
  Chain-congr h (list_del h e) y ys b (λ p m. unfold list_del in ground arith)
      (λ p m. unfold list_del in ground arith) c,
)

del-Chain :
    (h : Links) (a e b : ℕ) (xs : List ℕ)
    → Chain h a xs b
    → mem e xs ≡ true
    → mem a xs ≡ false
    → mem b xs ≡ false
    → Distinct xs
    → Chain (list_del h e) a (erase e xs) b
unfolding list_del
del-Chain h a e b [] c m out out' d = cc
del-Chain h a e b (x ∷ xs) (i, j, c) m out out' d = elim (Bool-cases (x == e)) [
  | inl eq ↦
      let same : x ≡ e = (==_iff x e).0 eq in
      rw eq (rw (← same) (del_front h a x b xs (i, j, c) out out' d))
  | inr ne ↦ rw ne (
    ground (arith, neighbours h x e b xs c),
    ground (arith, neighbours h x e b xs c),
    del-Chain h x e b xs c (ground arith) d.0 (ground arith) d.1,
  )
]

-- `list_del` of an entry takes it out of the list, keeps the order of the others, and touches the
-- links of the list only.
pub list_del-IsList :
    {h : Links} {head : ℕ} {xs : List ℕ} (e : ℕ)
    → IsList h head xs
    → mem e xs ≡ true
    → IsList (list_del h e) head (erase e xs)
      × (mem e (erase e xs) ≡ false)
      × SameOutside (head ∷ xs) h (list_del h e)
unfolding list_del
list_del-IsList {h} {head} {xs} e l m = (
  record {
    chain = del-Chain h head e head xs l.chain m l.head_out l.head_out l.distinct;
    head_out = mem-erase head e xs l.head_out;
    distinct = Distinct-erase e xs l.distinct;
  },
  not-mem-erase e xs l.distinct,
  λ p out. ground (arith, neighbours h head e head xs l.chain),
)
