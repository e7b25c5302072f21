-- ===== src/Deque.antt =====
-- What a ring buffer promises: a double-ended queue of at most `cap` elements, oldest first.
use umtp.Base.{
  ℕ, Bool, true, false, Option, none, some, List, [], ◌∷◌, ◌++◌, ◌==◌, if◌then◌else◌, length,
}

module _ {ℓ} {A : Type ℓ} where
  abbrev pub push_back : ℕ → List A → A → Bool × List A
  push_back cap q x = if length q == cap then (false, q) else (true, q ++ x ∷ [])

  abbrev pub push_front : ℕ → List A → A → Bool × List A
  push_front cap q x = if length q == cap then (false, q) else (true, x ∷ q)

  abbrev pub front : List A → Option A
  front [] = none
  front (x ∷ q) = some x

  abbrev pub pop_front : List A → Bool × List A
  pop_front [] = (false, [])
  pop_front (x ∷ q) = (true, q)
