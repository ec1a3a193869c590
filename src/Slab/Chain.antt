-- ===== src/Slab/Chain.antt =====
-- The free list of a slab of kernel/src/slab.c, and what carving a page into blocks makes of it.
use mathlib.Core.Path.{subst}
use nju_os_lab.Prelude.{
  ℕ, zero, suc, ◌+◌, ◌*◌, ◌^◌, ◌<◌, ◌≡◌, ◌≢◌, sym, refl, true, false, List, [], ◌∷◌, length, All,
  All-map, arith, u64, ◌==◌, update,
}
use nju_os_lab.Common.{null}
use nju_os_lab.Common.Align.{pow-pos}
use nju_os_lab.Slab.{carve}

-- From `p` on the links run through the blocks of the list, up to `NULL`.
abbrev pub Chain : (ℕ → ℕ) → ℕ → List ℕ → Type 0
Chain next p [] = p ≡ null
Chain next p (b ∷ bs) = (p ≡ b) × (b ≢ null) × Chain next (next b) bs

-- No block is in the list twice.
abbrev pub Unique : List ℕ → Type 0
Unique [] = Unit {0}
Unique (b ∷ bs) = All (λ c. b ≢ c) bs × Unique bs

-- A write to the link of a block that is not in the list leaves the list as it is.
pub Chain-update :
    (next : ℕ → ℕ) (c v p : ℕ) (l : List ℕ)
    → All (λ b. c ≢ b) l
    → Chain next p l
    → Chain (update next c v) p l
Chain-update next c v p [] f h = h
Chain-update next c v p (b ∷ bs) f h =
    let other : (c == b) ≡ false = ground arith in
    (h.0, h.1, rw other (Chain-update next c v (next b) bs f.1 h.2))

-- The list after `n` blocks of size `d` from `block` on have been put in front of it.
pub carved : (n block d : ℕ) → List ℕ → List ℕ
carved zero block d l = l
carved (suc n) block d l = carved n (block + d) d (block ∷ l)

pub length-carved : (n block d : ℕ) (l : List ℕ) → length (carved n block d l) ≡ n + length l
unfolding carved
length-carved zero block d l = omega arith
length-carved (suc n) block d l = omega (arith, length-carved n (block + d) d (block ∷ l))

-- The links and the first block of a list of different blocks.
abbrev pub IsCarved : List ℕ → (ℕ → ℕ) × ℕ → Type 0
IsCarved l (next, p) = Chain next p l × Unique l

-- What `carve` leaves: the links and the first block of such a list.
pub carve-Chain :
    (n block size : ℕ) (next : ℕ → ℕ) (p : ℕ) (l : List ℕ)
    → block ≢ null
    → block + n * 2 ^ size < 2 ^ 64
    → All (λ b. b < block) l
    → Unique l
    → Chain next p l
    → IsCarved (carved n block (2 ^ size) l) (carve n block size next p)
unfolding carve carved
carve-Chain zero block size next p l ne fit low u h = (h, u)
carve-Chain (suc n) block size next p l ne fit low u h =
    let d = 2 ^ size in
    let pos = pow-pos size in
    let step : u64 (block + d) ≡ block + d = grind arith in
    let self : (block == block) ≡ true = ground arith in
    let fresh = All-map (λ b. b < block) (λ b. block ≢ b) l (λ b lt. omega arith) low in
    subst
      (λ k.
        IsCarved (carved n (block + d) d (block ∷ l)) (carve n k size (update next block p) block))
      (sym step)
      (carve-Chain n (block + d) size (update next block p) block (block ∷ l) (omega arith)
        (grind arith)
        (
          omega (arith, pos),
          All-map (λ b. b < block) (λ b. b < block + d) l (λ b lt. omega arith) low,
        )
        (fresh, u) (refl, ne, rw self (Chain-update next block p p l fresh h)))

-- Every carved block is one of those from `block` on.
pub carved-All :
    (P : ℕ → Type 0) (n block d : ℕ) (l : List ℕ)
    → ((k : ℕ) → k < n → P (block + k * d))
    → All P l
    → All P (carved n block d l)
unfolding carved
carved-All P zero block d l f h = h
carved-All P (suc n) block d l f h =
    carved-All P n (block + d) d (block ∷ l)
      (λ k lt. subst P (grind arith) (f (k + 1) (omega arith)))
      (subst P (omega arith) (f 0 (omega arith)), h)
