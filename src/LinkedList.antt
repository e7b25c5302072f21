-- ===== src/LinkedList.antt =====
-- core/list.c and include/list.h: the circular doubly linked lists whose links lie inside the
-- structures that they join. The store gives the two fields of the `struct list_head` at each
-- address; a list is named by the address of its head, which carries no element.
pub mod Chain
pub mod Insert
pub mod Delete
pub mod Iterate
pub mod Safe
pub mod Backward
mod Tests
use umtp.Base.{
  ◌-◌, ℕ, zero, suc, Bool, true, false, Option, none, some, List, [], ◌∷◌, ◌==◌, if◌then◌else◌,
}

pub record Links : Type 0 where
  pub next : ℕ → ℕ
  pub prev : ℕ → ℕ

abbrev pub update : (ℕ → ℕ) → ℕ → ℕ → ℕ → ℕ
update f p v q = if q == p then v else f q

-- `p->next = v;` and `p->prev = v;`
abbrev pub set_next : Links → ℕ → ℕ → Links
set_next h p v = record h { next = update h.next p v }

abbrev pub set_prev : Links → ℕ → ℕ → Links
set_prev h p v = record h { prev = update h.prev p v }

pub init_list_head : Links → ℕ → Links
init_list_head h list = set_prev (set_next h list list) list list

-- `__list_add`: the four writes, in order.
pub list_add_between : Links → (entry prev next : ℕ) → Links
list_add_between h entry prev next =
    set_next (set_prev (set_next (set_prev h next entry) entry next) entry prev) prev entry

pub list_add : Links → (entry head : ℕ) → Links
unfolding list_add_between
list_add h entry head = list_add_between h entry head (h.next head)

pub list_add_tail : Links → (entry head : ℕ) → Links
unfolding list_add_between
list_add_tail h entry head = list_add_between h entry (h.prev head) head

pub list_empty : Links → ℕ → Bool
list_empty h head = h.next head == head

-- The entry's own links stay as they are.
pub list_del : Links → ℕ → Links
list_del h entry =
    let list_next = h.next entry in
    let list_prev = h.prev entry in set_next (set_prev h list_next list_prev) list_prev list_next

pub list_is_first : Links → (list head : ℕ) → Bool
list_is_first h list head = h.prev list == head

pub list_is_last : Links → (list head : ℕ) → Bool
list_is_last h list head = h.next list == head

abbrev cons_to : ℕ → Option (List ℕ) → Option (List ℕ)
cons_to pos none = none
cons_to pos (some visited) = some (pos ∷ visited)

-- The positions that `list_for_each` visits from `pos` on, on fuel; `none` means that the fuel ran
-- out before the cursor came back to the head.
pub for_each_from : ℕ → Links → (pos head : ℕ) → Option (List ℕ)
for_each_from zero h pos head = none
for_each_from (suc fuel) h pos head = elim (pos == head) [
  | true ↦ some []
  | false ↦ cons_to pos (for_each_from fuel h (h.next pos) head)
]

pub list_for_each : ℕ → Links → ℕ → Option (List ℕ)
unfolding for_each_from
list_for_each fuel h head = for_each_from fuel h (h.next head) head

-- The structure that a link lies in, at the given offset: `container_of`.
pub list_entry : (ptr offset : ℕ) → ℕ
list_entry ptr offset = ptr - offset

pub list_first_entry : Links → (head offset : ℕ) → ℕ
unfolding list_entry
list_first_entry h head offset = list_entry (h.next head) offset

pub list_last_entry : Links → (head offset : ℕ) → ℕ
unfolding list_entry
list_last_entry h head offset = list_entry (h.prev head) offset

pub for_each_prev_from : ℕ → Links → (pos head : ℕ) → Option (List ℕ)
for_each_prev_from zero h pos head = none
for_each_prev_from (suc fuel) h pos head = elim (pos == head) [
  | true ↦ some []
  | false ↦ cons_to pos (for_each_prev_from fuel h (h.prev pos) head)
]

pub list_for_each_prev : ℕ → Links → ℕ → Option (List ℕ)
unfolding for_each_prev_from
list_for_each_prev fuel h head = for_each_prev_from fuel h (h.prev head) head

-- What the body of a loop does at a position: it may change the links, and a state of its own.
abbrev pub LoopBody : Type 0 → Type 0
LoopBody S = ℕ → Links × S → Links × S

-- `n` is read before the body runs.
pub for_each_safe_from :
    {S : Type 0} → ℕ → LoopBody S → Links × S → (pos n head : ℕ) → Option (Links × S)
for_each_safe_from zero body st pos n head = none
for_each_safe_from (suc fuel) body st pos n head = elim (pos == head) [
  | true ↦ some st
  | false ↦ let st' = body pos st in for_each_safe_from fuel body st' n (st'.0.next n) head
]

pub list_for_each_safe : {S : Type 0} → ℕ → LoopBody S → Links × S → ℕ → Option (Links × S)
unfolding for_each_safe_from
list_for_each_safe fuel body st head =
    let pos = st.0.next head in for_each_safe_from fuel body st pos (st.0.next pos) head

pub for_each_prev_safe_from :
    {S : Type 0} → ℕ → LoopBody S → Links × S → (pos n head : ℕ) → Option (Links × S)
for_each_prev_safe_from zero body st pos n head = none
for_each_prev_safe_from (suc fuel) body st pos n head = elim (pos == head) [
  | true ↦ some st
  | false ↦ let st' = body pos st in for_each_prev_safe_from fuel body st' n (st'.0.prev n) head
]

pub list_for_each_prev_safe : {S : Type 0} → ℕ → LoopBody S → Links × S → ℕ → Option (Links × S)
unfolding for_each_prev_safe_from
list_for_each_prev_safe fuel body st head =
    let pos = st.0.prev head in for_each_prev_safe_from fuel body st pos (st.0.prev pos) head
