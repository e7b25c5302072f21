-- ===== src/LinkedList/Tests.antt =====
-- Runs of the list operations, and their theorems at a list of two entries.
use umtp.Base.{◌==◌, ◌≡◌, refl, false, some, [], ◌∷◌, arith}
use umtp.LinkedList.{
  list_for_each_safe, list_for_each_prev_safe, list_for_each_prev, list_first_entry,
  list_last_entry, Links, init_list_head, list_add_tail, list_del, list_for_each,
}
use umtp.LinkedList.Chain.{IsList, SameOutside, mem}
use umtp.LinkedList.Insert.{init_list_head-IsList}
use umtp.LinkedList.Delete.{list_del-IsList}
use umtp.LinkedList.Safe.{delete_if}
use umtp.LinkedList.Backward.{list_for_each_safe-delete}

abbrev null_links : Links
null_links = record { next = λ p. 0; prev = λ p. 0 }

-- The head is at 10, the entries at 20 and 30.
two : Links
unfolding init_list_head list_add_tail
two = list_add_tail (list_add_tail (init_list_head null_links 10) 20 10) 30 10

two-IsList : IsList two 10 (20 ∷ 30 ∷ [])
unfolding two
two-IsList = record { chain = omega arith; head_out = refl; distinct = (refl, (refl, tt)) }

visits : list_for_each 5 two 10 ≡ some (20 ∷ 30 ∷ [])
unfolding two list_for_each
visits = refl

init_list_head-IsList_example : IsList (init_list_head null_links 10) 10 []
init_list_head-IsList_example = init_list_head-IsList null_links 10

list_del-IsList_example :
    IsList (list_del two 20) 10 (30 ∷ [])
    × (mem 20 (30 ∷ []) ≡ false)
    × SameOutside (10 ∷ 20 ∷ 30 ∷ []) two (list_del two 20)
list_del-IsList_example = list_del-IsList 20 two-IsList refl

visits_back : list_for_each_prev 5 two 10 ≡ some (30 ∷ 20 ∷ [])
unfolding two list_for_each_prev
visits_back = refl

-- With the links at offset 4 of their structures.
first_entry : list_first_entry two 10 4 ≡ 16
unfolding two list_first_entry
first_entry = refl

last_entry : list_last_entry two 10 4 ≡ 26
unfolding two list_last_entry
last_entry = refl

list_for_each_safe-delete_example :
    ((h' : Links) × (list_for_each_safe 3 (delete_if (λ p. p == 20)) (two, []) 10
        ≡ some (h', 20 ∷ 30 ∷ []))
      × IsList h' 10 (30 ∷ []))
    × ((h' : Links) × (list_for_each_prev_safe 3 (delete_if (λ p. p == 20)) (two, []) 10
          ≡ some (h', 30 ∷ 20 ∷ []))
        × IsList h' 10 (30 ∷ []))
list_for_each_safe-delete_example =
    list_for_each_safe-delete (λ p. p == 20) 3 two-IsList (omega arith)
