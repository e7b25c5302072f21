-- ===== src/LinkedList/Iterate.antt =====
-- `list_for_each` visits the entries in order, and the tests of a list say what they are named for.
use umtp.Base.{ℕ, zero, suc, ◌<◌, ◌≡◌, true, false, some, List, [], ◌∷◌, arith, length}
use umtp.LinkedList.{Links, for_each_from, list_for_each, list_empty, list_is_first}
use umtp.LinkedList.Delete.{neighbours}
use umtp.LinkedList.Chain.{mem, Chain, IsList}

for_each_from-Chain :
    (fuel : ℕ) (h : Links) (a : ℕ) (xs : List ℕ) (b : ℕ)
    → Chain h a xs b
    → mem b xs ≡ false
    → length xs < fuel
    → for_each_from fuel h (h.next a) b ≡ some xs
unfolding for_each_from
for_each_from-Chain zero h a xs b c out enough = absurd (omega arith)
for_each_from-Chain (suc fuel) h a [] b c out enough = ground arith
for_each_from-Chain (suc fuel) h a (x ∷ xs) b (e, e', c) out enough =
    ground (arith, for_each_from-Chain fuel h x xs b c)

-- `list_for_each` ends, within one round more than the list has entries, and visits the entries in
-- order.
pub list_for_each-entries :
    {h : Links} {head : ℕ} {xs : List ℕ} (fuel : ℕ)
    → IsList h head xs
    → length xs < fuel
    → list_for_each fuel h head ≡ some xs
unfolding list_for_each
list_for_each-entries {h} {head} {xs} fuel l enough =
    for_each_from-Chain fuel h head xs head l.chain l.head_out enough

-- A list with entries is not empty, and `list_is_first` is true of its first entry and of no other.
pub list_is_first-first :
    {h : Links} {head : ℕ} (x : ℕ) (xs : List ℕ)
    → IsList h head (x ∷ xs)
    → (list_empty h head ≡ false)
      × (list_is_first h x head ≡ true)
      × ((y : ℕ) → mem y xs ≡ true → list_is_first h y head ≡ false)
unfolding list_empty list_is_first
list_is_first-first {h} {head} x xs l = (
  ground (arith, l.chain, l.head_out),
  ground (arith, l.chain),
  λ y m. ground (arith, neighbours h x y head xs l.chain.2, l.head_out),
)
