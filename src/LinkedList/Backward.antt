-- ===== src/LinkedList/Backward.antt =====
-- The loops of list.h in both directions: backwards is forwards in the list with its links exchanged.
use umtp.Base.{
  ℕ, zero, suc, ◌<◌, ◌≡◌, refl, sym, ap, ◌∙◌, Bool, true, false, Option, some, none, List, [], ◌∷◌,
  ◌++◌, arith, length, length-append, ◌==◌, if◌then◌else◌, Bool-cases, inl, inr,
}
use mathlib.Core.List.{reverse, append-nil, reverse-cons, reverse-reverse}
use umtp.LinkedList.{
  Links, list_del, for_each_from, for_each_prev_from, list_for_each, list_for_each_prev,
  for_each_safe_from, list_for_each_safe, for_each_prev_safe_from, list_for_each_prev_safe,
}
use umtp.LinkedList.Chain.{mem, Distinct, Chain, IsList, mem-append, Distinct-snoc}
use umtp.LinkedList.Iterate.{list_for_each-entries}
use umtp.LinkedList.Safe.{delete_if, left_by, first_or, for_each_safe_from-delete}

abbrev flip : Links → Links
flip h = record { next = h.prev; prev = h.next }

Chain-snoc :
    (g : Links) (a : ℕ) (ys : List ℕ) (x b : ℕ)
    → Chain g a ys x
    → g.next x ≡ b
    → g.prev b ≡ x
    → Chain g a (ys ++ x ∷ []) b
Chain-snoc g a [] x b c e e' = (c.0, c.1, (e, e'))
Chain-snoc g a (y ∷ ys) x b c e e' = (c.0, c.1, Chain-snoc g y ys x b c.2 e e')

flip-Chain :
    (h : Links) (a : ℕ) (xs : List ℕ) (b : ℕ) → Chain h a xs b → Chain (flip h) b (reverse xs) a
flip-Chain h a [] b c = (c.1, c.0)
flip-Chain h a (x ∷ xs) b c =
    rw (reverse-cons x xs)
      (Chain-snoc (flip h) b (reverse xs) x a (flip-Chain h x xs b c.2) c.1 c.0)

mem-reverse : (p : ℕ) (xs : List ℕ) → mem p (reverse xs) ≡ mem p xs
mem-reverse p [] = refl
mem-reverse p (x ∷ xs) =
    ap (mem p) (reverse-cons x xs)
    ∙ mem-append p (reverse xs) (x ∷ [])
    ∙ ground (arith, mem-reverse p xs)

Distinct-reverse : (xs : List ℕ) → Distinct xs → Distinct (reverse xs)
Distinct-reverse [] d = tt
Distinct-reverse (x ∷ xs) d =
    rw (reverse-cons x xs)
      (Distinct-snoc (reverse xs) x (Distinct-reverse xs d.1) (mem-reverse x xs ∙ d.0))

length-reverse : (xs : List ℕ) → length (reverse xs) ≡ length xs
length-reverse [] = refl
length-reverse (x ∷ xs) =
    ap length (reverse-cons x xs)
    ∙ omega (arith, length-append (reverse xs) (x ∷ []), length-reverse xs)

left_by-append :
    (d : ℕ → Bool) (xs ys : List ℕ) → left_by d (xs ++ ys) ≡ left_by d xs ++ left_by d ys
left_by-append d [] ys = refl
left_by-append d (x ∷ xs) ys = ground (arith, left_by-append d xs ys)

left_by-reverse : (d : ℕ → Bool) (xs : List ℕ) → left_by d (reverse xs) ≡ reverse (left_by d xs)
left_by-reverse d [] = refl
left_by-reverse d (x ∷ xs) =
    ap (left_by d) (reverse-cons x xs)
    ∙ left_by-append d (reverse xs) (x ∷ [])
    ∙ ap (λ ys. ys ++ left_by d (x ∷ [])) (left_by-reverse d xs)
    ∙ last (d x)
  where
    last :
        (b : Bool)
        → reverse (left_by d xs) ++ (if b then [] else x ∷ [])
          ≡ reverse (if b then left_by d xs else x ∷ left_by d xs)
    last true = append-nil (reverse (left_by d xs))
    last false = sym (reverse-cons x (left_by d xs))

flip-IsList :
    {h : Links} {head : ℕ} {xs : List ℕ} → IsList h head xs → IsList (flip h) head (reverse xs)
flip-IsList {h} {head} {xs} l = record {
  chain = flip-Chain h head xs head l.chain;
  head_out = mem-reverse head xs ∙ l.head_out;
  distinct = Distinct-reverse xs l.distinct;
}

for_each_prev_from-flip :
    (fuel : ℕ) (h : Links) (pos head : ℕ)
    → for_each_prev_from fuel h pos head ≡ for_each_from fuel (flip h) pos head
unfolding for_each_prev_from for_each_from
for_each_prev_from-flip zero h pos head = refl
for_each_prev_from-flip (suc fuel) h pos head =
    ground (arith, for_each_prev_from-flip fuel h (h.prev pos) head)

abbrev flipped : Option (Links × List ℕ) → Option (Links × List ℕ)
flipped none = none
flipped (some (h, visited)) = some (flip h, visited)

prev_safe-flip :
    (d : ℕ → Bool) (fuel : ℕ) (h : Links) (visited : List ℕ) (pos n head : ℕ)
    → for_each_prev_safe_from fuel (delete_if d) (h, visited) pos n head
      ≡ flipped (for_each_safe_from fuel (delete_if d) (flip h, visited) pos n head)
unfolding for_each_prev_safe_from for_each_safe_from list_del
prev_safe-flip d zero h visited pos n head = refl
prev_safe-flip d (suc fuel) h visited pos n head = elim (Bool-cases (pos == head)) [
  | inl e ↦ rw (e, for_each_prev_safe_from, for_each_safe_from) refl
  | inr e ↦ elim (Bool-cases (d pos)) [
    | inl t ↦
        rw (e, for_each_prev_safe_from, for_each_safe_from, t)
          (prev_safe-flip d fuel (list_del h pos) (visited ++ pos ∷ []) n ((list_del h pos).prev n)
            head)
    | inr t ↦
        rw (e, for_each_prev_safe_from, for_each_safe_from, t)
          (prev_safe-flip d fuel h (visited ++ pos ∷ []) n (h.prev n) head)
  ]
]

-- `list_for_each_prev` visits the entries from the last to the first.
pub list_for_each_prev-reverse :
    {h : Links} {head : ℕ} {xs : List ℕ} (fuel : ℕ)
    → IsList h head xs
    → length xs < fuel
    → list_for_each_prev fuel h head ≡ some (reverse xs)
unfolding list_for_each_prev list_for_each
list_for_each_prev-reverse {h} {head} {xs} fuel l enough =
    for_each_prev_from-flip fuel h (h.prev head) head
    ∙ list_for_each-entries fuel (flip-IsList l) (omega (arith, length-reverse xs))

-- In a list, with one round more than it has entries: a body that takes out the entries that `d`
-- chooses, as the loop stands at them, visits all entries, in order under `list_for_each_safe`, and
-- from the last to the first under `list_for_each_prev_safe`; either way the loop ends, and the list
-- has the other entries, in their order.
pub list_for_each_safe-delete :
    {h : Links} {head : ℕ} {xs : List ℕ} (d : ℕ → Bool) (fuel : ℕ)
    → IsList h head xs
    → length xs < fuel
    → ((h' : Links) × (list_for_each_safe fuel (delete_if d) (h, []) head ≡ some (h', xs))
        × IsList h' head (left_by d xs))
      × ((h' : Links) × (list_for_each_prev_safe fuel (delete_if d) (h, []) head
            ≡ some (h', reverse xs))
          × IsList h' head (left_by d xs))
unfolding list_for_each_safe list_for_each_prev_safe
list_for_each_safe-delete {h} {head} {xs} d fuel l enough =
    let (h', ends, l') = forward h xs l enough in
    let (g, back, k) =
      forward (flip h) (reverse xs) (flip-IsList l) (omega (arith, length-reverse xs)) in
    (
      (h', ends, l'),
      (
        flip g,
        prev_safe-flip d fuel h [] (h.prev head) (h.prev (h.prev head)) head ∙ ap flipped back,
        rw (ap reverse (left_by-reverse d xs) ∙ reverse-reverse (left_by d xs)) at
            (flip-IsList {xs = left_by d (reverse xs)} k),
      ),
    )
  where
    first : (h : Links) (xs : List ℕ) → Chain h head xs head → h.next head ≡ first_or head xs
    first h [] c = c.0
    first h (x ∷ xs) c = c.0

    forward :
        (h : Links) (xs : List ℕ)
        → IsList h head xs
        → length xs < fuel
        → (h' : Links) × (for_each_safe_from fuel
              (delete_if d)
              (h, [])
              (h.next head)
              (h.next (h.next head))
              head
            ≡ some (h', xs))
          × IsList h' head (left_by d xs)
    forward h xs l enough =
        let (h', ends, l') = for_each_safe_from-delete d head fuel h [] xs [] l enough in
        (
          h',
          ap (λ p. for_each_safe_from fuel (delete_if d) (h, []) p (h.next p) head)
                (first h xs l.chain)
              ∙ ends,
          l',
        )
