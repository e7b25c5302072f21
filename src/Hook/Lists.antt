-- ===== src/Hook/Lists.antt =====
-- The list after `umtp_hook_register`, and the result of `umtp_do_hooks`.
use umtp.Base.{
  ℕ, zero, suc, ◌+◌, ◌<◌, ◌≡◌, ◌≢◌, refl, sym, ap, ◌∙◌, Bool, true, false, Option, some, List, [],
  ◌∷◌, arith, if◌then◌else◌, not, ==_refl, ==_ne, lt→ltb, ◌^◌, ◌>>=◌, length,
}
use umtp.Errno.{Errno, negative}
use umtp.LinkedList.{Links, list_add_tail}
use umtp.LinkedList.Chain.{mem, IsList}
use umtp.LinkedList.Insert.{list_add_tail-IsList}
use umtp.LinkedList.Iterate.{list_for_each-entries}
use umtp.Hook.{
  has_flag, run_list, has_hooks, umtp_do_hooks, run_layer, max_hook_priority, registered_from,
  visited, Hooks, invalid_hook, hook_is_registered, register_checked, enter_hook, umtp_hook_init,
  register_ready, umtp_hook_register,
}

-- The list of a structure's priority in its layer.
abbrev pub head_of : Hooks → ℕ → ℕ
head_of h p = h.heads (h.hooks p).hook_point (h.hooks p).priority

-- A list of one entry, seen from the entry.
turned : (h : Links) (p head : ℕ) → IsList h p (head ∷ []) → IsList h head (p ∷ [])
turned h p head l = record {
  chain = ground (arith, l.chain);
  head_out = ground (arith, l.head_out);
  distinct = (refl, tt);
}

-- A structure that is in none of the lists of its layer.
registered_from-none :
    (rounds fuel : ℕ) (h : Hooks) (l j p : ℕ) (ps : ℕ → List ℕ)
    → ((i : ℕ) → IsList h.links (h.heads l i) (ps i))
    → ((i : ℕ) → length (ps i) < fuel)
    → ((i : ℕ) → visited p (ps i) ≡ false)
    → registered_from rounds fuel h l j p ≡ some false
unfolding registered_from
registered_from-none zero fuel h l j p ps lists enough out = refl
registered_from-none (suc k) fuel h l j p ps lists enough out =
    rw (list_for_each-entries fuel (lists j) (enough j), out j)
      (registered_from-none k fuel h l (j + 1) p ps lists enough out)

pub hook_is_registered-none :
    (fuel : ℕ) (h : Hooks) (p : ℕ) (ps : ℕ → List ℕ)
    → ((i : ℕ) → IsList h.links (h.heads (h.hooks p).hook_point i) (ps i))
    → ((i : ℕ) → length (ps i) < fuel)
    → ((i : ℕ) → visited p (ps i) ≡ false)
    → hook_is_registered fuel h p ≡ some false
unfolding hook_is_registered
hook_is_registered-none fuel h p ps lists enough out =
    registered_from-none max_hook_priority fuel h (h.hooks p).hook_point 0 p ps lists enough out

if_same : (b : Bool) (x : Option ℕ) → (if b then x else x) ≡ x
if_same true x = refl
if_same false x = refl

-- Whatever list its head had, the registration of a valid structure that is not registered, with
-- links that form an empty list, succeeds and leaves a list of that structure alone at the head: the
-- ones registered before are in the head's list no more.
pub hook_register-IsList :
    (n : Errno) (fuel : ℕ) (h : Hooks) (p : ℕ)
    → h.init_done ≡ true
    → invalid_hook (h.hooks p) ≡ false
    → hook_is_registered fuel h p ≡ some false
    → IsList h.links p []
    → head_of h p ≢ p
    → (h' : Hooks) × (umtp_hook_register n fuel h (some p) ≡ some (0, h'))
      × IsList h'.links (head_of h p) (p ∷ [])
unfolding umtp_hook_register register_ready register_checked enter_hook
hook_register-IsList n fuel h p ready valid unknown alone other = (
  enter_hook h p,
  ap (λ b. register_ready n fuel (if b then h else umtp_hook_init h) (some p)) ready
      ∙ ap (λ b. if b then some (negative n.einval, h) else register_checked n fuel h p) valid
      ∙ ap
          (λ known. known >>= λ k. some (if k then (negative n.eexist, h) else (0, enter_hook h p)))
          unknown,
  turned (list_add_tail h.links (head_of h p) p) p (head_of h p)
      (list_add_tail-IsList alone (head_of h p)
        (rw (==_ne p (head_of h p) (λ e. other (sym e))) refl)).0,
)

run_list-other :
    (h : Hooks) (bs : List ℕ) (data_len : ℕ) (dir : Bool) (ret : ℕ) (ps : List ℕ)
    → ((p : ℕ) → mem p ps ≡ true → (h.hooks p).in_and_out ≡ not dir)
    → run_list h bs data_len dir ret ps ≡ (false, ret)
unfolding run_list
run_list-other h bs data_len dir ret [] other = refl
run_list-other h bs data_len true ret (p ∷ ps) other =
    rw (other p (rw (==_refl p) refl))
      (run_list-other h bs data_len true ret ps (λ q m. other q (ground (arith, m))))
run_list-other h bs data_len false ret (p ∷ ps) other =
    rw (other p (rw (==_refl p) refl))
      (run_list-other h bs data_len false ret ps (λ q m. other q (ground (arith, m))))

run_layer-other :
    (rounds fuel : ℕ) (h : Hooks) (layer i : ℕ) (bs : List ℕ) (data_len : ℕ) (dir : Bool) (ret : ℕ)
    (ps : ℕ → List ℕ)
    → ((i : ℕ) → IsList h.links (h.heads layer i) (ps i))
    → ((i : ℕ) → length (ps i) < fuel)
    → ((i p : ℕ) → mem p (ps i) ≡ true → (h.hooks p).in_and_out ≡ not dir)
    → run_layer rounds fuel h layer i bs data_len dir ret ≡ some ret
unfolding run_layer
run_layer-other zero fuel h layer i bs data_len dir ret ps lists enough other = refl
run_layer-other (suc k) fuel h layer i bs data_len dir ret ps lists enough other =
    rw
      (
        list_for_each-entries fuel (lists i) (enough i),
        run_list-other h bs data_len dir ret (ps i) (other i),
        run_layer-other k fuel h layer (i + 1) bs data_len dir ret ps lists enough other,
      )
      (if_same (has_flag (h.pri_flag layer) i) (some ret))

-- With data for a layer whose flag is set, and all of whose hooks are for the other direction,
-- `umtp_do_hooks` calls none of them and returns the value that its variable `ret` happened to hold.
pub do_hooks-unset :
    (fuel : ℕ) (h : Hooks) (layer : ℕ) (bs : List ℕ) (data_len : ℕ) (dir : Bool) (ret : ℕ)
    (ps : ℕ → List ℕ)
    → has_hooks h layer ≡ true
    → ((i : ℕ) → IsList h.links (h.heads layer i) (ps i))
    → ((i : ℕ) → length (ps i) < fuel)
    → ((i p : ℕ) → mem p (ps i) ≡ true → (h.hooks p).in_and_out ≡ not dir)
    → 0 < data_len
    → data_len < 2 ^ 31
    → umtp_do_hooks fuel h layer (some bs) data_len dir ret ≡ some ret
unfolding umtp_do_hooks
do_hooks-unset fuel h layer bs data_len dir ret ps flagged lists enough other pos small =
    rw (flagged, ==_ne data_len 0 (omega arith), lt→ltb data_len (2 ^ 31) small)
      (run_layer-other max_hook_priority fuel h layer 0 bs data_len dir ret ps lists enough other)
