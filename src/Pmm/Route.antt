-- ===== src/Pmm/Route.antt =====
-- How `kfree` of kernel/src/pmm.c tells blocks of slabs from pages.
use mathlib.Core.Path.{subst}
use native.Mathlib.Nat.{pow-suc, div-add-mod, mul-mod_right, mul_assoc}
use nju_os_lab.Prelude.{
  ℕ, zero, suc, ◌+◌, ◌*◌, ◌/◌, ◌%◌, ◌^◌, ◌≡◌, ap, ◌∙◌, refl, Bool, true, false, List, arith, ◌==◌,
}
use nju_os_lab.Common.{is_aligned}
use nju_os_lab.Buddy.{PageSystem}
use nju_os_lab.Buddy.Free.{page_free}
use nju_os_lab.Buddy.Tree.{Tree}
use nju_os_lab.Buddy.Valid.{Granted}
use nju_os_lab.Slab.{Slabs, Result, done, stuck, fault, out_of_fuel}
use nju_os_lab.Slab.Free.{slab_free}
use nju_os_lab.Slab.Layout.{IsBlock, IsBlock-page}
use nju_os_lab.Slab.Valid.{IsSlab}
use nju_os_lab.Pmm.{restoring, free_page, kfree}

-- A call that leaves the interrupt flag as it was.
pub keeping : {A : Type 0} → Bool → Result A → Result (A × Bool)
keeping flag (done a s) = done (a, flag) s
keeping flag stuck = stuck
keeping flag fault = fault
keeping flag out_of_fuel = out_of_fuel

restoring-keeping : {A : Type 0} (flag : Bool) (r : Result A) → restoring flag r ≡ keeping flag r
unfolding keeping
restoring-keeping true (done a s) = refl
restoring-keeping false (done a s) = refl
restoring-keeping flag stuck = refl
restoring-keeping flag fault = refl
restoring-keeping flag out_of_fuel = refl

half_power : (a m : ℕ) → a % 2 ^ suc m ≡ 0 → a % 2 ^ m ≡ 0
half_power a m h =
    let q = a / 2 ^ suc m in
    let parts : a ≡ 2 ^ suc m * q = omega (arith, div-add-mod a (2 ^ suc m)) in
    let whole : a ≡ 2 ^ m * (2 * q) =
      parts ∙ ap (λ (d : ℕ). d * q) (pow-suc 2 m) ∙ mul_assoc (2 ^ m) 2 q in
    ap (λ k. k % 2 ^ m) whole ∙ mul-mod_right (2 ^ m) (2 * q)

-- A multiple of a larger power of two is one of a page.
page_multiple : (k a : ℕ) → a % 2 ^ (12 + k) ≡ 0 → a % 2 ^ 12 ≡ 0
page_multiple zero a h = h
page_multiple (suc k) a h =
    page_multiple k a (half_power a (12 + k) (subst (λ j. a % 2 ^ j ≡ 0) (omega arith) h))

-- What `slab_alloc` hands out: a block of a slab, or a grant of `page_alloc` of a page or more.
pub data Origin (s : Slabs) (ptr : ℕ) : Type 0 where
  from_slab : {a size : ℕ} {l : List ℕ} → IsSlab s a size l → IsBlock a size ptr → Origin s ptr
  from_pages :
      (k : ℕ) {before after : PageSystem} {trees : ℕ → Tree}
      → Granted (12 + k) before trees ptr after
      → Origin s ptr

-- What should become of it.
pub proper_free : (fuel : ℕ) {ptr : ℕ} {s : Slabs} → Origin s ptr → Result (Unit {0})
proper_free fuel {ptr} {s} (from_slab v b) = slab_free fuel ptr s
proper_free fuel {ptr} {s} (from_pages k g) = free_page (page_free ptr s.pages) s

-- `kfree` hands a block of a slab to `slab_free` and a page to `page_free`: the test of the twelve low
-- bits never takes the one for the other. The interrupt flag is then as before.
pub kfree-proper_free :
    (fuel ptr : ℕ) (flag : Bool) (s : Slabs) (o : Origin s ptr)
    → kfree fuel ptr flag s ≡ keeping flag (proper_free fuel o)
unfolding kfree is_aligned proper_free
kfree-proper_free fuel ptr flag s (from_slab {a} {size} v b) =
    let odd : (ptr % 2 ^ 12 == 0) ≡ false =
      ground (arith, (IsBlock-page a size ptr v.least v.most v.page.aligned b).0) in
    rw odd (restoring-keeping flag (slab_free fuel ptr s))
kfree-proper_free fuel ptr flag s (from_pages k g) =
    let even : (ptr % 2 ^ 12 == 0) ≡ true = ground (arith, page_multiple k ptr g.aligned) in
    rw even (restoring-keeping flag (free_page (page_free ptr s.pages) s))
