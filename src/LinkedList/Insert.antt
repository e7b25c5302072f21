-- ===== src/LinkedList/Insert.antt =====
-- `list_add` puts an entry at the front, `list_add_tail` at the back.
use umtp.Base.{ℕ, ◌≡◌, ◌≢◌, true, false, List, [], ◌∷◌, ◌++◌, arith}
use umtp.LinkedList.{Links, list_add_between, list_add, list_add_tail, init_list_head}
use umtp.LinkedList.Chain.{
  mem, Distinct, Chain, IsList, Chain-congr, mem-prev, mem-append, Distinct-snoc, SameOutside,
}

-- `INIT_LIST_HEAD` makes a list without entries, whatever the links were.
pub init_list_head-IsList : (h : Links) (head : ℕ) → IsList (init_list_head h head) head []
unfolding init_list_head
init_list_head-IsList h head = ground arith

-- The tail of a chain is not touched when an entry is put before its first entry.
add_front :
    (h : Links) (head entry : ℕ) (xs : List ℕ)
    → Chain h head xs head
    → mem head xs ≡ false
    → Distinct xs
    → entry ≢ head
    → mem entry xs ≡ false
    → Chain (list_add_between h entry head (h.next head)) head (entry ∷ xs) head
unfolding list_add_between
add_front h head entry [] c out d ne new = ground arith
add_front h head entry (x ∷ xs) (e, e', c) out d ne new =
    let g : Links = list_add_between h entry head (h.next head) in
    (
      ground arith,
      ground arith,
      (
        ground arith,
        ground arith,
        Chain-congr h g x xs head (λ p m. unfold list_add_between in ground arith)
            (λ p m. unfold list_add_between in ground arith) c,
      ),
    )

snoc :
    (h : Links) (a entry b : ℕ) (xs : List ℕ)
    → Chain h a xs b
    → mem a xs ≡ false
    → mem b xs ≡ false
    → Distinct xs
    → entry ≢ a
    → entry ≢ b
    → mem entry xs ≡ false
    → Chain (list_add_between h entry (h.prev b) b) a (xs ++ entry ∷ []) b
unfolding list_add_between
snoc h a entry b [] c out out' d ne ne' new = ground arith
snoc h a entry b (x ∷ xs) (e, e', c) out out' d ne ne' new = (
  ground (arith, mem-prev h x xs b c),
  ground arith,
  snoc h x entry b xs c d.0 (ground arith) d.1 (ground arith) ne' (ground arith),
)

module _ {h : Links} {head : ℕ} {xs : List ℕ} (l : IsList h head xs) (entry : ℕ)
    (new : mem entry (head ∷ xs) ≡ false) where
  next_in : mem (h.next head) (head ∷ xs) ≡ true
  next_in = first xs l.chain
    where
      first : (xs : List ℕ) → Chain h head xs head → mem (h.next head) (head ∷ xs) ≡ true
      first [] c = ground arith
      first (x ∷ xs) c = ground arith

  -- `list_add` of a structure that is not in the list makes it the first entry, and touches the
  -- links of the list and of the structure only.
  pub list_add-IsList :
      IsList (list_add h entry head) head (entry ∷ xs)
      × SameOutside (entry ∷ head ∷ xs) h (list_add h entry head)
  unfolding list_add
  list_add-IsList = (
    record {
      chain = add_front h head entry xs l.chain l.head_out l.distinct (ground arith) (ground arith);
      head_out = ground (arith, l.head_out);
      distinct = (ground arith, l.distinct);
    },
    λ p out. ground (arith, next_in),
  )

  -- `list_add_tail` of a structure that is not in the list makes it the last entry, and touches the
  -- links of the list and of the structure only.
  pub list_add_tail-IsList :
      IsList (list_add_tail h entry head) head (xs ++ entry ∷ [])
      × SameOutside (entry ∷ head ∷ xs) h (list_add_tail h entry head)
  unfolding list_add_tail
  list_add_tail-IsList = (
    record {
      chain =
          snoc h head entry head xs l.chain l.head_out l.head_out l.distinct (ground arith)
            (ground arith) (ground arith);
      head_out = ground (arith, mem-append head xs (entry ∷ []), l.head_out);
      distinct = Distinct-snoc xs entry l.distinct (ground arith);
    },
    λ p out. ground (arith, mem-prev h head xs head l.chain),
  )
