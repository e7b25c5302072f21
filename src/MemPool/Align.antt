-- ===== src/MemPool/Align.antt =====
-- `align` of core/memory.c rounds a size up.
use native.Mathlib.Nat.{mod-lt, div-add-mod, mul-mod_right}
use umtp.Base.{
  ℕ, ◌+◌, ◌-◌, ◌*◌, ◌/◌, ◌%◌, ◌≤◌, ◌<◌, ◌≡◌, ◌⊎◌, inl, inr, refl, ap, ◌∙◌, arith, leb, ◌==◌,
  Bool-cases, ==_iff,
}
use umtp.MemPool.{u64_mod, align_size}

rounded : (size align : ℕ) → 0 < align → size + (align - size % align) ≡ align * (size / align + 1)
rounded size align pos = grind (arith, div-add-mod size align, mod-lt size {m = align} pos)

rounded-mod : (size align : ℕ) → 0 < align → (size + (align - size % align)) % align ≡ 0
rounded-mod size align pos =
    ap (λ x. x % align) (rounded size align pos) ∙ mul-mod_right align (size / align + 1)

pub self-mod : (align : ℕ) → align % align ≡ 0
self-mod align = ap (λ x. x % align) (omega arith) ∙ mul-mod_right align 1

pub no_wrap :
    (size align : ℕ)
    → 0 < align
    → size + align < u64_mod
    → (size + (align - size % align)) % u64_mod ≡ size + (align - size % align)
no_wrap size align pos fits = omega arith

-- Unless the sum wraps, `align` gives a multiple of `align` that is at least the wanted size and one
-- `align`, and that is `align` itself or less than one `align` above the wanted size.
pub align_size-bounds :
    (size align : ℕ)
    → 0 < align
    → size + align < u64_mod
    → (align_size size align % align ≡ 0)
      × (size ≤ align_size size align)
      × (align ≤ align_size size align)
      × ((align_size size align ≡ align) ⊎ (align_size size align < size + align))
unfolding align_size
align_size-bounds size align pos fits = elim (Bool-cases (leb size align)) [
  | inl small ↦ rw small (self-mod align, ground arith, omega arith, inl refl)
  | inr large ↦ elim (Bool-cases (size % align == 0)) [
    | inl e ↦
        rw (large, e) ((==_iff (size % align) 0).0 e, omega arith, ground arith, inr (omega arith))
    | inr e ↦
        rw (large, e, no_wrap size align pos fits)
          (
            rounded-mod size align pos,
            omega arith,
            ground arith,
            inr (ground (arith, mod-lt size {m = align} pos)),
          )
  ]
]
