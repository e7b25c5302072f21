-- ===== src/Hook.antt =====
-- core/hook.c and include/hook.h: functions that look at the data of a layer, in lists by priority.
-- A hook is a structure that the program supplies and that begins with its link, so both have one
-- address. What a hook's function returns is a parameter of its structure; it does not change the
-- lists. An `int` that may be negative is its 32-bit pattern, so a negative one is large.
pub mod Lists
mod Tests
use umtp.Base.{
  ℕ, zero, suc, ◌+◌, ◌-◌, ◌*◌, ◌/◌, ◌%◌, ◌^◌, Bool, true, false, not, ◌&&◌, ◌||◌, Option, none,
  some, List, [], ◌∷◌, ltb, ◌==◌, if◌then◌else◌, ◌>>=◌,
}
use umtp.Errno.{Errno, negative}
use umtp.LinkedList.{Links, init_list_head, list_add_tail, list_del, list_for_each}

abbrev pub max_hook_priority : ℕ
max_hook_priority = 3

abbrev pub hook_max_layer : ℕ
hook_max_layer = 3

abbrev pub HookFunc : Type 0
HookFunc = List ℕ → ℕ → Bool → ℕ

pub record UmtpHook : Type 0 where
  pub in_and_out : Bool
  pub priority : ℕ
  pub hook_point : ℕ
  pub hook_func : Option HookFunc

-- The static variables, the links, and the structures. The head of layer `l` and priority `j` is at
-- `heads l j`, outside of the array too.
pub record Hooks : Type 0 where
  pub hook_layer_flag : ℕ
  pub pri_flag : ℕ → ℕ
  pub heads : ℕ → ℕ → ℕ
  pub init_done : Bool
  pub links : Links
  pub hooks : ℕ → UmtpHook

-- Bit `k` of a flag word: the test, and the word with it set or cleared.
abbrev pub has_flag : ℕ → ℕ → Bool
has_flag flag k = flag / 2 ^ k % 2 == 1

abbrev pub set_flag : ℕ → ℕ → ℕ
set_flag flag k = if has_flag flag k then flag else flag + 2 ^ k

abbrev pub clear_flag : ℕ → ℕ → ℕ
clear_flag flag k = if has_flag flag k then flag - 2 ^ k else flag

abbrev pub set_pri_flag : (ℕ → ℕ) → ℕ → ℕ → ℕ → ℕ
set_pri_flag f layer flag l = if l == layer then flag else f l

-- The inner loop and the outer loop of `umtp_hook_init`, from `j` and `l` on.
pub init_heads : (rounds : ℕ) → Hooks → (l j : ℕ) → Links → Links
init_heads zero h l j links = links
init_heads (suc k) h l j links = init_heads k h l (j + 1) (init_list_head links (h.heads l j))

pub init_layers : (rounds : ℕ) → (l : ℕ) → Hooks → Hooks
unfolding init_heads
init_layers zero l h = h
init_layers (suc k) l h = init_layers k (l + 1) (record h {
  pri_flag = set_pri_flag h.pri_flag l 0;
  links = init_heads max_hook_priority h l 0 h.links;
})

pub umtp_hook_init : Hooks → Hooks
unfolding init_layers
umtp_hook_init h = record (init_layers hook_max_layer 0 h) { init_done = true }

-- Whether the pointer is among the positions of a list.
pub visited : ℕ → List ℕ → Bool
visited p [] = false
visited p (q ∷ qs) = if q == p then true else visited p qs

-- `hook_is_registered`, from priority `j` on; `none` means that the fuel ran out in a list.
pub registered_from : (rounds fuel : ℕ) → Hooks → (l j p : ℕ) → Option Bool
unfolding visited
registered_from zero fuel h l j p = some false
registered_from (suc k) fuel h l j p =
    let rest = registered_from k fuel h l (j + 1) p in
    list_for_each fuel h.links (h.heads l j) >>= λ ps. if visited p ps then some true else rest

pub hook_is_registered : ℕ → Hooks → ℕ → Option Bool
unfolding registered_from
hook_is_registered fuel h p = registered_from max_hook_priority fuel h (h.hooks p).hook_point 0 p

-- The argument test of `umtp_hook_register` and `umtp_hook_unregister`, true for arguments that they
-- refuse. The numbers are not negative.
pub has_func : Option HookFunc → Bool
has_func none = false
has_func (some f) = true

pub invalid_hook : UmtpHook → Bool
unfolding has_func
invalid_hook hook =
    ltb max_hook_priority hook.priority
    || not (ltb hook.hook_point hook_max_layer)
    || not (has_func hook.hook_func)

-- From the flags on: the head is what is added.
pub enter_hook : Hooks → ℕ → Hooks
enter_hook h p =
    let l = (h.hooks p).hook_point in
    let j = (h.hooks p).priority in
    record h {
      hook_layer_flag = set_flag h.hook_layer_flag l;
      pri_flag = set_pri_flag h.pri_flag l (set_flag (h.pri_flag l) j);
      links = list_add_tail h.links (h.heads l j) p;
    }

pub register_checked : Errno → ℕ → Hooks → ℕ → Option (ℕ × Hooks)
unfolding hook_is_registered enter_hook
register_checked n fuel h p = hook_is_registered fuel h p >>= λ known.
    some (if known then (negative n.eexist, h) else (0, enter_hook h p))

pub register_ready : Errno → ℕ → Hooks → Option ℕ → Option (ℕ × Hooks)
unfolding invalid_hook register_checked
register_ready n fuel h none = some (negative n.einval, h)
register_ready n fuel h (some p) =
    if invalid_hook (h.hooks p) then some (negative n.einval, h) else register_checked n fuel h p

pub umtp_hook_register : Errno → ℕ → Hooks → Option ℕ → Option (ℕ × Hooks)
unfolding umtp_hook_init register_ready
umtp_hook_register n fuel h hook =
    register_ready n fuel (if h.init_done then h else umtp_hook_init h) hook

pub leave_hook : Hooks → ℕ → Hooks
leave_hook h p =
    let l = (h.hooks p).hook_point in
    let j = (h.hooks p).priority in
    record h {
      hook_layer_flag = clear_flag h.hook_layer_flag l;
      pri_flag = set_pri_flag h.pri_flag l (clear_flag (h.pri_flag l) j);
      links = list_del h.links p;
    }

-- A refused structure returns `false`, which is 0.
pub umtp_hook_unregister : Errno → ℕ → Hooks → Option ℕ → Option (ℕ × Hooks)
unfolding invalid_hook hook_is_registered leave_hook
umtp_hook_unregister n fuel h none = some (negative n.einval, h)
umtp_hook_unregister n fuel h (some p) =
    if invalid_hook (h.hooks p)
    then some (0, h)
    else (hook_is_registered fuel h p >>= λ known.
        some (if known then (0, leave_hook h p) else (negative n.enoent, h)))

abbrev pub has_hooks : Hooks → ℕ → Bool
has_hooks h layer = ltb layer hook_max_layer && has_flag h.hook_layer_flag layer

-- A registered structure has a function.
pub call_hook : Option HookFunc → List ℕ → ℕ → Bool → ℕ
call_hook none bs data_len dir = 0
call_hook (some f) bs data_len dir = f bs data_len dir

-- The walk over the structures of one list: whether a function stopped it, and `ret`.
pub run_list : Hooks → List ℕ → ℕ → Bool → ℕ → List ℕ → Bool × ℕ
unfolding call_hook
run_list h bs data_len dir ret [] = (false, ret)
run_list h bs data_len dir ret (p ∷ ps) =
    let skipped = run_list h bs data_len dir ret ps in
    let ran = call_hook (h.hooks p).hook_func bs data_len dir in
    let later = run_list h bs data_len dir ran ps in
    if dir && (h.hooks p).in_and_out || not dir && not (h.hooks p).in_and_out
    then (if ran == 0 then later else (true, ran))
    else skipped

-- The loop over the priorities from `i` on; each list is walked with the functions in it.
pub run_layer : (rounds fuel : ℕ) → Hooks → (layer i : ℕ) → List ℕ → ℕ → Bool → ℕ → Option ℕ
unfolding run_list
run_layer zero fuel h layer i bs data_len dir ret = some ret
run_layer (suc k) fuel h layer i bs data_len dir ret =
    let skipped = run_layer k fuel h layer (i + 1) bs data_len dir ret in
    let walked = list_for_each fuel h.links (h.heads layer i) >>= λ ps.
    let r = run_list h bs data_len dir ret ps in
    let later = run_layer k fuel h layer (i + 1) bs data_len dir r.1 in
    if r.0 then some r.1 else later in
    if has_flag (h.pri_flag layer) i then walked else skipped

-- `ret` is what the variable of that name holds before anything is assigned to it.
pub umtp_do_hooks :
    ℕ → Hooks → (layer : ℕ) → Option (List ℕ) → (data_len : ℕ) → Bool → (ret : ℕ) → Option ℕ
unfolding run_layer
umtp_do_hooks fuel h layer none data_len dir ret = some 0
umtp_do_hooks fuel h layer (some bs) data_len dir ret =
    if not (has_hooks h layer)
    then some 0
    else if (data_len == 0) || not (ltb data_len (2 ^ 31))
    then some 0
    else run_layer max_hook_priority fuel h layer 0 bs data_len dir ret
