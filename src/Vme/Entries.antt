-- ===== src/Vme/Entries.antt =====
-- What the bit operations of abstract-machine/am/src/x86/qemu/vme.c do to addresses and to entries of
-- page tables, and what `clear` does to a page.
use native.Mathlib.Nat.{mul-div_cancel_left, one-le-pow}
use nju_os_lab.Prelude.{
  ℕ, zero, suc, ◌+◌, ◌-◌, ◌*◌, ◌/◌, ◌%◌, ◌^◌, ◌≤◌, ◌<◌, ◌≡◌, ◌⊎◌, refl, ap, ◌∙◌, arith, update,
}
use nju_os_lab.Prelude.Masks.{and_bits, and_bits-high, and_bits-mask}
use nju_os_lab.Prelude.Flags.{or_bits, or_bits-flags, and_bits-low, and_bits-none}
use nju_os_lab.Vme.{pte_p, pgtables, ptlevels, indexof, baseof, clear, round_down, pgsize}

-- The page number of an address without the indices of the lowest `left` levels, and the index at the
-- level above them.
abbrev pub above : (left page : ℕ) → ℕ
above zero page = page
above (suc left) page = above left page / 512

abbrev pub slot : (left page : ℕ) → ℕ
slot left page = above left page % 512

-- The page number of an address.
abbrev pub page_of : (addr : ℕ) → ℕ
page_of addr = addr / 4096

-- The page in an entry.
abbrev pub base : ℕ → ℕ
base word = word / 4096 * 4096

pub low_bit : (w : ℕ) → and_bits 64 w pte_p ≡ w % 2
low_bit w = and_bits-low 1 63 w

pub baseof-base : (w : ℕ) → w < 2 ^ 64 → baseof w ≡ base w
unfolding baseof
baseof-base w lt = and_bits-mask 12 52 w lt

pub round_down-base : (a : ℕ) → a < 2 ^ 64 → round_down a pgsize ≡ base a
round_down-base a lt = and_bits-mask 12 52 a lt

field : (k w a : ℕ) → and_bits (k + (9 + w)) a (2 ^ k * 511) / 2 ^ k ≡ a / 2 ^ k % 512
field k w a =
    ap (λ n. n / 2 ^ k) (and_bits-high k (9 + w) a 511)
    ∙ mul-div_cancel_left (and_bits (9 + w) (a / 2 ^ k) 511) (one-le-pow k 2 (omega arith))
    ∙ and_bits-low 9 w (a / 2 ^ k)

-- The mask of level 0 is 0.
field_none : (a : ℕ) → and_bits 64 a 0 / 2 ^ 0 ≡ 0
field_none a = omega (arith, and_bits-none 64 a)

-- `indexof` takes the index of the level out of the page number; at level 0 it is 0.
pub indexof-slot :
    (left a : ℕ)
    → left ≤ ptlevels
    → a < 2 ^ 48
    → indexof a (pgtables (ptlevels - left)) ≡ slot left (a / 4096)
unfolding indexof pgtables
indexof-slot zero a le lt = field 12 43 a
indexof-slot (suc zero) a le lt = field 21 34 a ∙ omega arith
indexof-slot (suc (suc zero)) a le lt = field 30 25 a ∙ omega arith
indexof-slot (suc (suc (suc zero))) a le lt = field 39 16 a ∙ omega arith
indexof-slot (suc (suc (suc (suc zero)))) a le lt = field_none a ∙ omega arith
indexof-slot (suc (suc (suc (suc (suc left))))) a le lt = absurd (omega arith)

-- The word of an entry: the flags are added to the address of a page.
pub or_bits-entry :
    (a e f : ℕ)
    → a % 4096 ≡ 0
    → a < 2 ^ 64
    → e < 4096
    → f < 4096
    → or_bits 64 (a + e) f ≡ a + or_bits 12 e f
or_bits-entry a e f al lt le lf =
    let parts : a ≡ a / 4096 * 2 ^ 12 = omega arith in
    rw parts (or_bits-flags 12 52 (a / 4096) e f (omega arith) le lf)

-- `clear` leaves all other words as they are, and sets its entries to 0.
pub clear-other :
    (n base : ℕ) (m : ℕ → ℕ) (a : ℕ) → (a < base) ⊎ (base + 8 * n ≤ a) → clear n base m a ≡ m a
unfolding clear
clear-other zero base m a out = refl
clear-other (suc n) base m a out = ground (arith, clear-other n (base + 8) (update m base 0) a)

pub clear-inside : (n base : ℕ) (m : ℕ → ℕ) (i : ℕ) → i < n → clear n base m (base + 8 * i) ≡ 0
unfolding clear
clear-inside zero base m i lt = absurd (omega arith)
clear-inside (suc n) base m zero lt =
    ground (arith, clear-other n (base + 8) (update m base 0) base)
clear-inside (suc n) base m (suc i) lt =
    ap (clear n (base + 8) (update m base 0)) (omega arith)
    ∙ clear-inside n (base + 8) (update m base 0) i (omega arith)

pub clear-lt :
    (n base k : ℕ) (m : ℕ → ℕ) (a : ℕ) → 0 < k → ((a : ℕ) → m a < k) → clear n base m a < k
unfolding clear
clear-lt zero base k m a pos h = h a
clear-lt (suc n) base k m a pos h =
    clear-lt n (base + 8) k (update m base 0) a pos (λ a. ground (arith, h a))
