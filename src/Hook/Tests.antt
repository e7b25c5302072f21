-- ===== src/Hook/Tests.antt =====
-- The theorem about the registration of a hook, in a layer whose lists are empty.
use umtp.Base.{
  ◌==◌, if◌then◌else◌, Bool-cases, ==_iff, inl, inr, ℕ, ◌+◌, ◌*◌, ◌≡◌, refl, true, false, some,
  List, [], ◌∷◌, arith,
}
use umtp.Errno.{Errno}
use umtp.LinkedList.Chain.{IsList}
use umtp.Hook.{visited, Hooks, invalid_hook, umtp_hook_register, umtp_do_hooks}
use umtp.Hook.Lists.{hook_is_registered-none, hook_register-IsList, do_hooks-unset}

abbrev errno : Errno
errno = record {
  einval = 22;
  enoent = 2;
  eexist = 17;
  eproto = 71;
  enomem = 12;
  etimedout = 110;
  ebadf = 9;
}

-- Every address is the head of an empty list; the heads are at 100, 101, ..., and the hook at 50.
abbrev no_hooks : Hooks
no_hooks = record {
  hook_layer_flag = 0;
  pri_flag = λ l. 0;
  heads = λ l j. 100 + 10 * l + j;
  init_done = true;
  links = record { next = λ p. p; prev = λ p. p };
  hooks = λ p. record {
    in_and_out = true;
    priority = 1;
    hook_point = 2;
    hook_func = some (λ bs len dir. 0);
  };
}

empty-IsList : (head : ℕ) → IsList no_hooks.links head []
empty-IsList head = record { chain = (refl, refl); head_out = refl; distinct = tt }

hook_register-IsList_example :
    (h' : Hooks) × (umtp_hook_register errno 1 no_hooks (some 50) ≡ some (0, h'))
    × IsList h'.links 121 (50 ∷ [])
unfolding invalid_hook visited
hook_register-IsList_example =
    hook_register-IsList errno 1 no_hooks 50 refl refl
      (hook_is_registered-none 1 no_hooks 50 (λ i. []) (λ i. empty-IsList (120 + i))
        (λ i. omega arith) (λ i. refl))
      (empty-IsList 50) (omega arith)

-- The hook at 50 is in the list at 121, for incoming data, and outgoing data comes.
abbrev turn : ℕ → ℕ
turn p = if p == 121 then 50 else if p == 50 then 121 else p

abbrev one_hook : Hooks
one_hook = record no_hooks {
  hook_layer_flag = 4;
  pri_flag = λ l. 2;
  links = record { next = turn; prev = turn };
}

abbrev one_at : ℕ → List ℕ
one_at i = if i == 1 then 50 ∷ [] else []

one_hook-IsList : (i : ℕ) → IsList one_hook.links (120 + i) (one_at i)
one_hook-IsList i = elim (Bool-cases (i == 1)) [
  | inl e ↦
      let same : i ≡ 1 = (==_iff i 1).0 e in
      rw same
        (record { chain = (refl, refl, (refl, refl)); head_out = refl; distinct = (refl, tt) })
  | inr e ↦ rw e (record { chain = ground arith; head_out = refl; distinct = tt })
]

do_hooks-unset_example : umtp_do_hooks 2 one_hook 2 (some (5 ∷ [])) 1 false 77 ≡ some 77
do_hooks-unset_example =
    do_hooks-unset 2 one_hook 2 (5 ∷ []) 1 false 77 one_at refl one_hook-IsList (λ i. ground arith)
      (λ i p m. refl) (omega arith) (omega arith)
