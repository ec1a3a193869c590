-- ===== src/Common.antt =====
-- kernel/src/common.c: the exchange locks and the alignment helpers.
pub mod Align
use nju_os_lab.Prelude.{
  ℕ, ◌+◌, ◌-◌, ◌%◌, ◌^◌, Bool, true, false, Option, none, some, ◌==◌, if◌then◌else◌, u64,
}

-- `NULL`
abbrev pub null : ℕ
null = 0

-- `_lock` on a lock word. `atomic_xchg` writes 1 and the loop ends when the old value was not 1.
-- With no other CPU to release the word the loop on a held lock never ends: `none`.
unfoldable pub lock : ℕ → Option ℕ
lock locked = if locked == 1 then none else some 1

-- `_unlock`
unfoldable pub unlock : ℕ → ℕ
unlock locked = 0

-- `_try_lock`: whether the lock was taken, and the word that the exchange leaves.
unfoldable pub try_lock : ℕ → Bool × ℕ
try_lock locked = (locked == 0, 1)

-- `ptr & mask` for `mask = (1 << align) - 1`
abbrev pub low_bits : ℕ → ℕ → ℕ
low_bits ptr align = ptr % 2 ^ align

-- `align_ptr`. The panic needs `(1 << align) & mask` to be nonzero, which no power of two gives.
unfoldable pub align_ptr : ℕ → ℕ → ℕ
align_ptr ptr align =
    if low_bits ptr align == 0 then ptr else u64 (ptr - low_bits ptr align + 2 ^ align)

-- `is_aligned`
unfoldable pub is_aligned : ℕ → ℕ → Bool
is_aligned ptr align = low_bits ptr align == 0
