-- ===== src/Slab/Layout.antt =====
-- Where the blocks of a slab of kernel/src/slab.c lie in its page, for the nine size classes.
use mathlib.Core.Path.{subst}
use native.Mathlib.Decide.{ℕ_discrete}
use nju_os_lab.Prelude.{
  ℕ, zero, suc, ◌+◌, ◌-◌, ◌*◌, ◌%◌, ◌^◌, ◌≤◌, ◌<◌, ◌≡◌, ◌≢◌, sym, ◌⊎◌, inl, inr, refl, arith, leb,
  Bool-cases,
}
use nju_os_lab.Common.Align.{pow-pos}
use nju_os_lab.Slab.{
  s_8b, s_refuse, slab_space, trans_slab_size_loop, trans_slab_size, slab_ocupy, block_count,
}

-- What holds for each class holds for all.
pub by_class :
    (P : ℕ → Type 0)
    → P 3
    → P 4
    → P 5
    → P 6
    → P 7
    → P 8
    → P 9
    → P 10
    → P 11
    → (size : ℕ) → s_8b ≤ size
    → size < s_refuse
    → P size
by_class P a b c d e f g h i size lo hi = elim (ℕ_discrete size 3) [
  | yes q ↦ subst P (sym q) a
  | no x3 ↦ elim (ℕ_discrete size 4) [
    | yes q ↦ subst P (sym q) b
    | no x4 ↦ elim (ℕ_discrete size 5) [
      | yes q ↦ subst P (sym q) c
      | no x5 ↦ elim (ℕ_discrete size 6) [
        | yes q ↦ subst P (sym q) d
        | no x6 ↦ elim (ℕ_discrete size 7) [
          | yes q ↦ subst P (sym q) e
          | no x7 ↦ elim (ℕ_discrete size 8) [
            | yes q ↦ subst P (sym q) f
            | no x8 ↦ elim (ℕ_discrete size 9) [
              | yes q ↦ subst P (sym q) g
              | no x9 ↦ elim (ℕ_discrete size 10) [
                | yes q ↦ subst P (sym q) h
                | no x10 ↦ subst P (omega arith) i
              ]
            ]
          ]
        ]
      ]
    ]
  ]
]

-- Behind the header there is at least one block, and the blocks end inside the page, at its end or
-- less than a block before it.
abbrev LayoutOk : ℕ → Type 0
LayoutOk size =
    (64 ≤ slab_ocupy size)
    × (slab_ocupy size % 2 ^ size ≡ 0)
    × (1 ≤ block_count size)
    × (slab_ocupy size + block_count size * 2 ^ size ≤ slab_space)
    × (slab_space < slab_ocupy size + (block_count size + 1) * 2 ^ size)

pub layout : (size : ℕ) → s_8b ≤ size → size < s_refuse → LayoutOk size
unfolding slab_ocupy
layout =
    by_class LayoutOk (omega arith) (omega arith) (omega arith) (omega arith) (omega arith)
      (omega arith) (omega arith) (omega arith) (omega arith)

-- The blocks of the slab at `a`.
abbrev pub IsBlock : (a size block : ℕ) → Type 0
IsBlock a size block =
    (a + slab_ocupy size ≤ block) × (block + 2 ^ size ≤ a + slab_space) × (block % 2 ^ size ≡ 0)

-- A block lies strictly inside the page of its slab.
pub IsBlock-page :
    (a size block : ℕ)
    → s_8b ≤ size
    → size < s_refuse
    → a % 2 ^ 12 ≡ 0
    → IsBlock a size block
    → (block % 2 ^ 12 ≢ 0) × (block - block % 2 ^ 12 ≡ a)
IsBlock-page a size block lo hi al b =
    let (header, _, _, _, _) = layout size lo hi in
    (omega (arith, pow-pos size), omega (arith, pow-pos size))

-- A class holds the request, and is the smallest of the nine that does.
pub record Fits (size r : ℕ) : Type 0 where
  pub least : s_8b ≤ r
  pub most : r < s_refuse
  pub enough : size ≤ 2 ^ r
  pub smallest : (k : ℕ) → s_8b ≤ k → k < r → 2 ^ k < size

loop-Fits :
    (n stype size : ℕ)
    → s_8b ≤ stype
    → stype + n ≡ s_refuse
    → ((k : ℕ) → s_8b ≤ k → k < stype → 2 ^ k < size)
    → Fits size (trans_slab_size_loop n stype size)
      ⊎ ((trans_slab_size_loop n stype size ≡ s_refuse)
          × ((k : ℕ) → s_8b ≤ k → k < s_refuse → 2 ^ k < size))
unfolding trans_slab_size_loop
loop-Fits zero stype size lo e h = inr (refl, λ k a b. h k a (omega arith))
loop-Fits (suc n) stype size lo e h = elim (Bool-cases (leb size (2 ^ stype))) [
  | inl le ↦
      rw le (inl (record { least = lo; most = omega arith; enough = ground arith; smallest = h }))
  | inr gt ↦ rw gt (
      loop-Fits n (stype + 1) size (omega arith) (omega arith) (λ k a b. elim (ℕ_discrete stype k) [
        | yes q ↦ subst (λ j. 2 ^ j < size) q (ground arith)
        | no ne ↦ h k a (omega arith)
      ]))
]

-- `trans_slab_size` returns the smallest of the nine classes whose blocks hold the request, and
-- refuses exactly the requests above 2 KiB.
pub trans_slab_size_lem :
    (size : ℕ)
    → ((size ≤ 2 ^ 11) × Fits size (trans_slab_size size))
      ⊎ ((2 ^ 11 < size) × (trans_slab_size size ≡ s_refuse))
unfolding trans_slab_size
trans_slab_size_lem size =
    elim (loop-Fits 9 s_8b size (omega arith) refl (λ k a b. absurd (omega arith))) [
      | inl f ↦ inl (
        by_class (λ r. size ≤ 2 ^ r → size ≤ 2 ^ 11) (λ h. omega arith) (λ h. omega arith)
            (λ h. omega arith) (λ h. omega arith) (λ h. omega arith) (λ h. omega arith)
            (λ h. omega arith) (λ h. omega arith) (λ h. h) _ f.least f.most f.enough,
        f,
      )
      | inr (e, all) ↦ inr (all 11 (omega arith) (omega arith), e)
    ]
