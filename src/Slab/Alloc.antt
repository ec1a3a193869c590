-- ===== src/Slab/Alloc.antt =====
-- `slab_alloc` of kernel/src/slab.c for one class and CPU: what it hands out, and what it leaves.
use mathlib.Core.Path.{subst}
use nju_os_lab.Prelude.{
  ℕ, ◌-◌, ◌^◌, ◌≤◌, ◌≡◌, sym, ap, ◌∙◌, refl, true, false, List, [], ◌∷◌, ◌++◌, length, All, arith,
  ◌==◌, inl, inr,
}
use nju_os_lab.Common.{null, lock}
use nju_os_lab.Buddy.Tree.{Tree}
use nju_os_lab.Buddy.Valid.{IsValid}
use nju_os_lab.Buddy.Grant.{Fresh, Exhausted}
use nju_os_lab.Slab.{
  Slabs, Result, done, s_refuse, slab_size_offset, slab_space, set_locked, walk, after_walk,
  alloc_in_class, slab_alloc, trans_slab_size,
}
use nju_os_lab.Slab.Layout.{Fits, trans_slab_size_lem}
use nju_os_lab.Slab.Blocks.{take_block-IsSlab}
use nju_os_lab.Slab.Lists.{
  Listed, Distinct, Unlocked, AllFull, LocksOnly, LocksOnly-trans, release_first, Listed-locks,
  Walked, hit, miss, walk-Walked,
}
use nju_os_lab.Slab.Pages.{Reserved}
use nju_os_lab.Slab.Cache.{
  IsCache, All-middle, Distinct-middle, Listed-middle, Unlocked-Elsewhere, Unlocked-middle,
  Listed-replace, IsCache-locks,
}
use nju_os_lab.Slab.Served.{Served, from_list, from_new, no_room, set_locked-Elsewhere, serve_new}

module _ {cpu size : ℕ} {s : Slabs} {trees : ℕ → Tree} {l : List (ℕ × List ℕ)}
    (v : IsCache cpu size s trees l) where
  -- Behind the loop, if it has found a slab.
  serve_hit :
      (s1 : Slabs) (front : List (ℕ × List ℕ)) (a b : ℕ) (bs : List ℕ) (back : List (ℕ × List ℕ))
      → l ≡ front ++ (a, b ∷ bs) ∷ back
      → AllFull front
      → LocksOnly l s s1
      → Unlocked s1 front
      → Unlocked s1 back
      → Served cpu size s trees l (after_walk cpu size (done a s1))
  serve_hit s1 front a b bs back e full k lf lb =
      let p = s.heads cpu (size - slab_size_offset) in
      let listed = subst (Listed s1 size p) e (Listed-locks size p l k v.listed) in
      let distinct = subst Distinct e v.distinct in
      let slab = Listed-middle size p front a (b ∷ bs) back listed in
      let (s2, taken, slab', free, append, other, heads, pages) =
        take_block-IsSlab a size b bs s1 slab in
      let there : (a == null) ≡ false = ground (arith, slab.page) in
      let same : s2.heads ≡ s.heads = heads ∙ k.heads in
      let same_pages : s2.pages ≡ s.pages = pages ∙ k.pages in
      rw (there, taken)
        (from_list front a b bs back e full slab.inside.0 slab.unique.0 (record {
          least = v.least;
          most = v.most;
          listed =
              subst
                (λ h. Listed s2 size (h cpu (size - slab_size_offset)) (front ++ (a, bs) ∷ back))
                (sym same)
                (Listed-replace size p front a (b ∷ bs) bs back other distinct append slab' listed);
          distinct = Distinct-middle front a (b ∷ bs) bs back distinct;
          unlocked = Unlocked-middle front a (b ∷ bs) bs back other distinct lf free lb;
          valid = subst (λ g. IsValid g trees) (sym same_pages) v.valid;
          reserved =
              subst (λ g. All (λ x. Reserved g trees x.0) (front ++ (a, bs) ∷ back))
                (sym same_pages)
                (All-middle (Reserved s.pages trees) front a (b ∷ bs) bs back
                  (subst (All (λ x. Reserved s.pages trees x.0)) e v.reserved)).1;
        }))

Served-pages :
    {cpu size : ℕ} {s s' : Slabs} {trees : ℕ → Tree} {l : List (ℕ × List ℕ)} {r : Result ℕ}
    → s'.pages ≡ s.pages
    → Served cpu size s' trees l r
    → Served cpu size s trees l r
Served-pages e (from_list front a b bs back q full i u v) = from_list front a b bs back q full i u v
Served-pages {trees} e (from_new a b bs trees' full all fresh i v) =
    from_new a b bs trees' full all (subst (λ g. Fresh g trees (a, 12)) e fresh) i v
Served-pages e (no_room full room v) = no_room full (subst (Exhausted slab_space) e room) v

module _ {cpu size : ℕ} {s : Slabs} {trees : ℕ → Tree} {l : List (ℕ × List ℕ)}
    (v : IsCache cpu size s trees l) where
  serve_walk :
      {t : Slabs} {r : Result ℕ}
      → LocksOnly l s t
      → Walked t l r
      → Served cpu size s trees l (after_walk cpu size r)
  serve_walk k (hit front a b bs back e full locks held lf lb) =
      serve_hit v _ front a b bs back e full (LocksOnly-trans k locks) lf lb
  serve_walk k (miss full locks free) =
      let k' = LocksOnly-trans k locks in
      Served-pages k'.pages (serve_new (IsCache-locks l v k' free) full)

alloc_loop :
    {cpu size : ℕ} {s : Slabs} {trees : ℕ → Tree} (fuel : ℕ) (l : List (ℕ × List ℕ))
    → IsCache cpu size s trees l
    → length l ≤ fuel
    → Served cpu size s trees l (alloc_in_class fuel cpu size s)
unfolding alloc_in_class lock
alloc_loop {cpu} {size} {s} fuel [] v le =
    let empty : (s.heads cpu (size - slab_size_offset) == null) ≡ true = ground (arith, v.listed) in
    rw empty (serve_new v tt)
alloc_loop {cpu} {size} {s} {trees} fuel ((a, bs) ∷ r) v le =
    let p = s.heads cpu (size - slab_size_offset) in
    let some' : (p == null) ≡ false = ground (arith, v.listed.0, v.listed.1.page) in
    let word : (s.slab p).locked ≡ 0 = ap (λ k. (s.slab k).locked) v.listed.0 ∙ v.unlocked.0 in
    let unheld : ((s.slab p).locked == 1) ≡ false = ground arith in
    let k = release_first a 1 bs r s in
    rw (some', alloc_in_class, unheld)
      (subst
        (λ q.
          Served cpu size s trees ((a, bs) ∷ r)
            (after_walk cpu size (walk fuel q (set_locked q 1 s))))
        (sym v.listed.0)
        (serve_walk v k (
          walk-Walked fuel size a bs r (set_locked a 1 s)
            (Listed-locks size a ((a, bs) ∷ r) k (refl, v.listed.1, v.listed.2)) v.distinct
            (ground arith)
            (Unlocked-Elsewhere r (set_locked-Elsewhere a 1 s) v.distinct.0 v.unlocked.1)
            (omega arith))))

-- `slab_alloc` of at most 2 KiB, with enough fuel for the slabs of the class: the request gets the
-- smallest class that holds it, and what `Served` says of it. All locks are free again.
pub slab_alloc-Served :
    (fuel cpu size : ℕ) (s : Slabs) (trees : ℕ → Tree) (l : List (ℕ × List ℕ))
    → size ≤ 2 ^ 11
    → IsCache cpu (trans_slab_size size) s trees l
    → length l ≤ fuel
    → Fits size (trans_slab_size size)
      × Served cpu (trans_slab_size size) s trees l (slab_alloc fuel cpu size s)
unfolding slab_alloc
slab_alloc-Served fuel cpu size s trees l small v le =
    let class : (trans_slab_size size == s_refuse) ≡ false = ground (arith, v.most) in
    (
      elim (trans_slab_size_lem size) [ inl (_, f) ↦ f | inr (big, _) ↦ absurd (omega arith) ],
      rw class (alloc_loop fuel l v le),
    )
