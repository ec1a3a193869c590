-- ===== src/Buddy/Levels.antt =====
-- The bytes that `page_init` of kernel/src/page.c writes, level by level.
use native.Mathlib.Decide.{ℕ_discrete}
use native.Mathlib.Nat.{pow-suc}
use mathlib.Core.Path.{subst}
use nju_os_lab.Common.Align.{pow-pos}
use nju_os_lab.Prelude.{ℕ, zero, suc, ◌+◌, ◌-◌, ◌^◌, ◌≤◌, ◌<◌, ◌≡◌, ◌∙◌, refl, sym, arith, update}
use nju_os_lab.Buddy.{Nodes, p_4k, fill_level, page_init_loop, page_init}
use nju_os_lab.Buddy.Alloc.{left_branch, right_branch}
use nju_os_lab.Buddy.Tree.{Clean}

fill_level_out :
    (n index size : ℕ) (nd : Nodes) (j : ℕ) → j < index → fill_level n index size nd j ≡ nd j
unfolding fill_level
fill_level_out zero index size nd j h = refl
fill_level_out (suc n) index size nd j h =
    fill_level_out n (index + 1) size (update nd index size) j (omega arith) ∙ ground arith

fill_level_in :
    (n index size : ℕ) (nd : Nodes) (j : ℕ)
    → index ≤ j
    → j < index + n
    → fill_level n index size nd j ≡ size
unfolding fill_level
fill_level_in zero index size nd j lo hi = absurd (omega arith)
fill_level_in (suc n) index size nd j lo hi = elim (ℕ_discrete index j) [
  | yes e ↦ fill_level_out n (index + 1) size (update nd index size) j (omega arith) ∙ ground arith
  | no ne ↦ fill_level_in n (index + 1) size (update nd index size) j (omega arith) (omega arith)
]

-- The nodes of the depths from `d` on have the class of their depth.
abbrev Levels : ℕ → Nodes → Type 0
Levels d nd = (e j : ℕ) → d ≤ e → e ≤ 12 → 2 ^ e ≤ j → j < 2 ^ suc e → nd j ≡ 24 - e

-- The rest of the loop fills the depths from `d` on, and leaves the nodes above them alone.
page_init_loop-Levels :
    (r d : ℕ) (nd : Nodes)
    → r + d ≡ 13
    → Levels d (page_init_loop r (2 ^ d) nd)
      × ((j : ℕ) → j < 2 ^ d → page_init_loop r (2 ^ d) nd j ≡ nd j)
unfolding page_init_loop
page_init_loop-Levels zero d nd h = ((λ e j a b. absurd (omega arith)), λ j lt. refl)
page_init_loop-Levels (suc r) d nd h =
    let width : 12 - r ≡ d = omega arith in
    let next : 2 ^ d + 2 ^ d ≡ 2 ^ suc d = omega (arith, pow-suc 2 d) in
    let filled = fill_level (2 ^ d) (2 ^ d) (p_4k + r) nd in
    let (levels, below) = page_init_loop-Levels r (suc d) filled (omega arith) in
    rw (width, next)
      (
        (λ e j de e12 lo hi. elim (ℕ_discrete d e) [
          | yes q ↦
              below j (subst (λ x. j < 2 ^ suc x) (sym q) hi)
              ∙ (fill_level_in (2 ^ d) (2 ^ d) (p_4k + r) nd j (subst (λ x. 2 ^ x ≤ j) (sym q) lo)
                    (rw next (subst (λ x. j < 2 ^ suc x) (sym q) hi))
                  ∙ omega arith)
          | no ne ↦ levels e j (omega arith) e12 lo hi
        ]),
        λ j lt.
            below j (omega (arith, next, pow-pos d))
            ∙ fill_level_out (2 ^ d) (2 ^ d) (p_4k + r) nd j lt,
      )

Levels-Clean :
    (k d i : ℕ) (nd : Nodes) → d + k ≡ 12 → 2 ^ d ≤ i → i < 2 ^ suc d → Levels 0 nd → Clean nd i k
Levels-Clean zero d i nd h lo hi v = v d i (omega arith) (omega arith) lo hi ∙ omega arith
Levels-Clean (suc k) d i nd h lo hi v = (
  v d i (omega arith) (omega arith) lo hi ∙ omega arith,
  Levels-Clean k (suc d) (left_branch i) nd (omega arith) (omega (arith, pow-suc 2 d))
      (omega (arith, pow-suc 2 d, pow-suc 2 (suc d))) v,
  Levels-Clean k (suc d) (right_branch i) nd (omega arith) (omega (arith, pow-suc 2 d))
      (omega (arith, pow-suc 2 d, pow-suc 2 (suc d))) v,
)

-- `page_init` writes the record of a unit that is free as a whole.
pub page_init-Clean : (nd : Nodes) → Clean (page_init nd) 1 12
unfolding page_init
page_init-Clean nd =
    Levels-Clean 12 0 1 _ refl (omega arith) (omega arith) (page_init_loop-Levels 13 0 nd refl).0
