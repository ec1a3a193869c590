-- ===== src/Common/Align.antt =====
-- What `align_ptr` of kernel/src/common.c returns.
use native.Mathlib.Nat.{mod-lt, mod-le, one-le-pow, mul-mod_right, div-add-mod}
use nju_os_lab.Prelude.{ℕ, ◌+◌, ◌-◌, ◌/◌, ◌%◌, ◌^◌, ◌≤◌, ◌<◌, ◌≡◌, true, arith, ap, ◌∙◌}
use nju_os_lab.Common.{align_ptr, is_aligned}

pub pow-pos : (k : ℕ) → 0 < 2 ^ k
pow-pos k = one-le-pow k 2 (omega arith)

-- Rounding up to a multiple of `d`.
round_up-mod : (p d : ℕ) → (p - p % d + d) % d ≡ 0
round_up-mod p d = ap (λ k. k % d) (omega (arith, div-add-mod p d)) ∙ mul-mod_right d (p / d + 1)

-- The result of `align_ptr` is a multiple of `1 << align`, not below the pointer and less than
-- `1 << align` above it, if rounding up does not pass the end of the address space.
pub align_ptr_lem :
    (ptr align : ℕ)
    → ptr + 2 ^ align < 2 ^ 64
    → (is_aligned (align_ptr ptr align) align ≡ true)
      × (ptr ≤ align_ptr ptr align)
      × (align_ptr ptr align < ptr + 2 ^ align)
unfolding align_ptr is_aligned
align_ptr_lem ptr align h = ground (
  arith,
  round_up-mod ptr (2 ^ align),
  mod-lt ptr (pow-pos align),
  mod-le ptr (2 ^ align),
  pow-pos align,
)
