-- ===== src/Slab/Lists.antt =====
-- The lists of slabs of kernel/src/slab.c, and the loop of `slab_alloc` that goes through one of them.
use mathlib.Core.Path.{subst}
use nju_os_lab.Prelude.{
  ℕ, zero, suc, ◌<◌, ◌≡◌, ◌≢◌, sym, ap, ◌∙◌, refl, true, false, List, [], ◌∷◌, ◌++◌, length, All,
  arith, ltb, ◌==◌,
}
use nju_os_lab.Common.{null, lock, unlock}
use nju_os_lab.Slab.{Slab, Slabs, Result, done, set_locked, walk}
use nju_os_lab.Slab.Valid.{IsSlab, IsSlab-keep, bare}

-- From `p` on the slabs at these addresses, each with its free blocks.
abbrev pub Listed : Slabs → (size p : ℕ) → List (ℕ × List ℕ) → Type 0
Listed s size p [] = p ≡ null
Listed s size p ((a, l) ∷ r) = (p ≡ a) × IsSlab s a size l × Listed s size (s.slab a).append r

-- No slab at the address.
abbrev pub Off : ℕ → List (ℕ × List ℕ) → Type 0
Off a = All (λ x. a ≢ x.0)

-- No slab is in the list twice.
abbrev pub Distinct : List (ℕ × List ℕ) → Type 0
Distinct [] = Unit {0}
Distinct (x ∷ r) = Off x.0 r × Distinct r

-- The locks of the slabs are free.
abbrev pub Unlocked : Slabs → List (ℕ × List ℕ) → Type 0
Unlocked s = All (λ x. (s.slab x.0).locked ≡ 0)

-- The slabs have no free block.
abbrev pub AllFull : List (ℕ × List ℕ) → Type 0
AllFull = All (λ x. x.1 ≡ [])

-- Nothing but the locks of the slabs of the list may differ.
pub record LocksOnly (l : List (ℕ × List ℕ)) (s s' : Slabs) : Type 0 where
  pub slab : (c : ℕ) → bare (s'.slab c) ≡ bare (s.slab c)
  pub locks : (c : ℕ) → Off c l → (s'.slab c).locked ≡ (s.slab c).locked
  pub next : s'.next ≡ s.next
  pub heads : s'.heads ≡ s.heads
  pub pages : s'.pages ≡ s.pages

pub Listed-locks :
    {l : List (ℕ × List ℕ)} {s s' : Slabs} (size p : ℕ) (r : List (ℕ × List ℕ))
    → LocksOnly l s s'
    → Listed s size p r
    → Listed s' size p r
Listed-locks size p [] k h = h
Listed-locks {s} {s'} size p ((a, l) ∷ r) k h =
    let same : (s'.slab a).append ≡ (s.slab a).append = ap Slab.append (k.slab a) in
    (
      h.0,
      IsSlab-keep (k.slab a) (λ b e. ap (λ f. f b) k.next) h.1,
      rw same (Listed-locks size (s.slab a).append r k h.2),
    )

-- What the loop of `slab_alloc` comes to: the first slab with a free block, or none.
pub data Walked (s : Slabs) (l : List (ℕ × List ℕ)) : Result ℕ → Type 0 where
  hit :
      (front : List (ℕ × List ℕ)) (a b : ℕ) (bs : List ℕ) (back : List (ℕ × List ℕ)) {s' : Slabs}
      → l ≡ front ++ (a, b ∷ bs) ∷ back
      → AllFull front
      → LocksOnly l s s'
      → (s'.slab a).locked ≡ 1
      → Unlocked s' front
      → Unlocked s' back
      → Walked s l (done a s')
  miss : {s' : Slabs} → AllFull l → LocksOnly l s s' → Unlocked s' l → Walked s l (done null s')

LocksOnly-refl : (l : List (ℕ × List ℕ)) (s : Slabs) → LocksOnly l s s
LocksOnly-refl l s = record {
  slab = λ c. refl;
  locks = λ c f. refl;
  next = refl;
  heads = refl;
  pages = refl;
}

-- One write to the lock of the first slab, and one more to the lock of the second.
pub release_first :
    (a w : ℕ) (l : List ℕ) (r : List (ℕ × List ℕ)) (s : Slabs)
    → LocksOnly ((a, l) ∷ r) s (set_locked a w s)
release_first a w l r s = record {
  slab = λ c. ground arith;
  locks = λ c f. ground arith;
  next = refl;
  heads = refl;
  pages = refl;
}

next_lock :
    (a c : ℕ) (m : List ℕ) (r : List (ℕ × List ℕ)) (s : Slabs)
    → LocksOnly ((a, []) ∷ (c, m) ∷ r) s (set_locked a 0 (set_locked c 1 s))
next_lock a c m r s = record {
  slab = λ b. ground arith;
  locks = λ b f. ground arith;
  next = refl;
  heads = refl;
  pages = refl;
}

second_held :
    (a c : ℕ) (s : Slabs) → a ≢ c → ((set_locked a 0 (set_locked c 1 s)).slab c).locked ≡ 1
second_held a c s ne = ground arith

still_free :
    (a c : ℕ) (r : List (ℕ × List ℕ)) (s : Slabs)
    → Off a r
    → Off c r
    → Unlocked s r
    → Unlocked (set_locked a 0 (set_locked c 1 s)) r
still_free a c [] s f g h = tt
still_free a c (x ∷ r) s f g h = (ground arith, still_free a c r s f.1 g.1 h.1)

pub LocksOnly-trans :
    {l : List (ℕ × List ℕ)} {s t u : Slabs} → LocksOnly l s t → LocksOnly l t u → LocksOnly l s u
LocksOnly-trans h k = record {
  slab = λ c. k.slab c ∙ h.slab c;
  locks = λ c f. k.locks c f ∙ h.locks c f;
  next = k.next ∙ h.next;
  heads = k.heads ∙ h.heads;
  pages = k.pages ∙ h.pages;
}

LocksOnly-cons :
    {x : ℕ × List ℕ} {l : List (ℕ × List ℕ)} {s t : Slabs} → LocksOnly l s t → LocksOnly (x ∷ l) s t
LocksOnly-cons h = record {
  slab = h.slab;
  locks = λ c f. h.locks c f.1;
  next = h.next;
  heads = h.heads;
  pages = h.pages;
}

Walked-cons :
    {s t : Slabs} {a : ℕ} {r : List (ℕ × List ℕ)} {w : Result ℕ}
    → LocksOnly ((a, []) ∷ r) s t
    → Off a r
    → (t.slab a).locked ≡ 0
    → Walked t r w
    → Walked s ((a, []) ∷ r) w
Walked-cons {a} k f free (hit front c b bs back e full locks held lf lb) =
    hit ((a, []) ∷ front) c b bs back (ap (λ l. (a, []) ∷ l) e) (refl, full)
      (LocksOnly-trans k (LocksOnly-cons locks)) held (locks.locks a f ∙ free, lf) lb
Walked-cons {a} k f free (miss full locks lf) =
    miss (refl, full) (LocksOnly-trans k (LocksOnly-cons locks)) (locks.locks a f ∙ free, lf)

-- With the lock of the first slab held and those of the others free, the loop goes through the list.
pub walk-Walked :
    (fuel size a : ℕ) (l : List ℕ) (r : List (ℕ × List ℕ)) (s : Slabs)
    → Listed s size a ((a, l) ∷ r)
    → Distinct ((a, l) ∷ r)
    → (s.slab a).locked ≡ 1
    → Unlocked s r
    → length r < fuel
    → Walked s ((a, l) ∷ r) (walk fuel a s)
unfolding walk lock unlock
walk-Walked zero size a l r s h d held free lt = absurd (omega arith)
walk-Walked (suc f) size a (b ∷ bs) r s h d held free lt =
    let full : ltb 0 (s.slab a).free_block_num ≡ true = ground (arith, h.1.count) in
    rw full (hit [] a b bs r refl tt (LocksOnly-refl _ s) held tt free)
walk-Walked (suc f) size a [] [] s h d held free lt =
    let none_free : ltb 0 (s.slab a).free_block_num ≡ false = ground (arith, h.1.count) in
    let last : ((s.slab a).append == null) ≡ true = ground (arith, h.2) in
    rw (none_free, last) (miss (refl, tt) (release_first a 0 [] [] s) (ground arith, tt))
walk-Walked (suc f) size a [] ((c, m) ∷ r) s h d held free lt =
    let none_free : ltb 0 (s.slab a).free_block_num ≡ false = ground (arith, h.1.count) in
    let more : ((s.slab a).append == null) ≡ false = ground (arith, h.2.0, h.2.1.page) in
    let word : (s.slab (s.slab a).append).locked ≡ 0 = ap (λ k. (s.slab k).locked) h.2.0 ∙ free.0 in
    let unheld : ((s.slab (s.slab a).append).locked == 1) ≡ false = ground arith in
    let t = set_locked a 0 (set_locked c 1 s) in
    let step = next_lock a c m r s in
    rw (none_free, more, unheld)
      (subst (λ k. Walked s ((a, []) ∷ (c, m) ∷ r) (walk f k (set_locked a 0 (set_locked k 1 s))))
        (sym h.2.0)
        (Walked-cons step d.0 (ground arith) (
          walk-Walked f size c m r t
            (
              refl,
              (Listed-locks size (s.slab a).append ((c, m) ∷ r) step h.2).1,
              (Listed-locks size (s.slab a).append ((c, m) ∷ r) step h.2).2,
            )
            d.1 (second_held a c s d.0.0) (still_free a c r s d.0.1 d.1.0 free.1) (omega arith))))
