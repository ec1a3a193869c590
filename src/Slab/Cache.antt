-- ===== src/Slab/Cache.antt =====
-- The slabs of one class and CPU of kernel/src/slab.c between two calls.
use mathlib.Core.Path.{subst}
use nju_os_lab.Prelude.{ℕ, ◌-◌, ◌≤◌, ◌<◌, ◌≡◌, ◌≢◌, sym, ap, ◌∙◌, refl, List, [], ◌∷◌, ◌++◌, All}
use nju_os_lab.Buddy.{PageSystem}
use nju_os_lab.Buddy.Tree.{Tree}
use nju_os_lab.Buddy.Valid.{IsValid}
use nju_os_lab.Slab.{Slab, Slabs, s_8b, s_refuse, slab_size_offset}
use nju_os_lab.Slab.Valid.{IsSlab, IsSlab-keep, bare}
use nju_os_lab.Slab.Blocks.{Elsewhere}
use nju_os_lab.Slab.Lists.{Listed, Off, Distinct, Unlocked, LocksOnly, Listed-locks}
use nju_os_lab.Slab.Pages.{Reserved}

-- The slabs of class `size` of CPU `cpu`, each with its free blocks, between two calls. The pages of
-- the slabs are allocated.
pub record IsCache (cpu size : ℕ) (s : Slabs) (trees : ℕ → Tree) (l : List (ℕ × List ℕ))
    : Type 0 where
  pub least : s_8b ≤ size
  pub most : size < s_refuse
  pub listed : Listed s size (s.heads cpu (size - slab_size_offset)) l
  pub distinct : Distinct l
  pub unlocked : Unlocked s l
  pub valid : IsValid s.pages trees
  pub reserved : All (λ x. Reserved s.pages trees x.0) l

-- A property of addresses at one of them, and with other blocks there.
pub All-middle :
    (P : ℕ → Type 0) (front : List (ℕ × List ℕ)) (a : ℕ) (bs cs : List ℕ) (back : List (ℕ × List ℕ))
    → All (λ x. P x.0) (front ++ (a, bs) ∷ back)
    → P a × All (λ x. P x.0) (front ++ (a, cs) ∷ back)
All-middle P [] a bs cs back h = (h.0, h)
All-middle P (x ∷ front) a bs cs back h =
    let (here, rest) = All-middle P front a bs cs back h.1 in (here, (h.0, rest))

pub Distinct-middle :
    (front : List (ℕ × List ℕ)) (a : ℕ) (bs cs : List ℕ) (back : List (ℕ × List ℕ))
    → Distinct (front ++ (a, bs) ∷ back)
    → Distinct (front ++ (a, cs) ∷ back)
Distinct-middle [] a bs cs back d = d
Distinct-middle (x ∷ front) a bs cs back d =
    ((All-middle (λ y. x.0 ≢ y) front a bs cs back d.0).1, Distinct-middle front a bs cs back d.1)

pub Listed-middle :
    {s : Slabs} (size p : ℕ) (front : List (ℕ × List ℕ)) (a : ℕ) (bs : List ℕ)
    (back : List (ℕ × List ℕ))
    → Listed s size p (front ++ (a, bs) ∷ back)
    → IsSlab s a size bs
Listed-middle size p [] a bs back h = h.1
Listed-middle {s} size p ((c, m) ∷ front) a bs back h =
    Listed-middle size (s.slab c).append front a bs back h.2

pub Unlocked-Elsewhere :
    {c : ℕ} {s s' : Slabs} (l : List (ℕ × List ℕ))
    → Elsewhere c s s'
    → Off c l
    → Unlocked s l
    → Unlocked s' l
Unlocked-Elsewhere [] e f h = tt
Unlocked-Elsewhere ((a, bs) ∷ r) e f h =
    (ap Slab.locked (e.slab a f.0) ∙ h.0, Unlocked-Elsewhere r e f.1 h.1)

-- The locks of all slabs of a list with one of them in the middle.
pub Unlocked-middle :
    {s s' : Slabs} (front : List (ℕ × List ℕ)) (a : ℕ) (bs cs : List ℕ) (back : List (ℕ × List ℕ))
    → Elsewhere a s s'
    → Distinct (front ++ (a, bs) ∷ back)
    → Unlocked s front
    → (s'.slab a).locked ≡ 0
    → Unlocked s back
    → Unlocked s' (front ++ (a, cs) ∷ back)
Unlocked-middle [] a bs cs back e d f h g = (h, Unlocked-Elsewhere back e d.0 g)
Unlocked-middle ((c, m) ∷ front) a bs cs back e d f h g =
    let ne = (All-middle (λ x. c ≢ x) front a bs bs back d.0).0 in
    (
      ap Slab.locked (e.slab c (λ w. ne (sym w))) ∙ f.0,
      Unlocked-middle front a bs cs back e d.1 f.1 h g,
    )

-- A list is the same after a change to a slab that is not in it.
pub Listed-Elsewhere :
    {c : ℕ} {s s' : Slabs} (size p : ℕ) (l : List (ℕ × List ℕ))
    → Elsewhere c s s'
    → Off c l
    → Listed s size p l
    → Listed s' size p l
Listed-Elsewhere size p [] e f h = h
Listed-Elsewhere {c} {s} {s'} size p ((a, bs) ∷ r) e f h =
    let same : s'.slab a ≡ s.slab a = e.slab a f.0 in
    (
      h.0,
      IsSlab-keep (ap bare same) (λ b q. e.next b (λ w. f.0 (sym w ∙ q))) h.1,
      rw same (Listed-Elsewhere size (s.slab a).append r e f.1 h.2),
    )

pub Listed-pages :
    (s : Slabs) (size p : ℕ) (l : List (ℕ × List ℕ)) (pages : PageSystem)
    → Listed s size p l
    → Listed (record s { pages = pages }) size p l
Listed-pages s size p [] pages h = h
Listed-pages s size p ((a, bs) ∷ r) pages h =
    (h.0, IsSlab-keep refl (λ b q. refl) h.1, Listed-pages s size (s.slab a).append r pages h.2)

-- A change to one slab of a list that keeps its place.
pub Listed-replace :
    {s s' : Slabs} (size p : ℕ) (front : List (ℕ × List ℕ)) (a : ℕ) (bs cs : List ℕ)
    (back : List (ℕ × List ℕ))
    → Elsewhere a s s'
    → Distinct (front ++ (a, bs) ∷ back)
    → (s'.slab a).append ≡ (s.slab a).append
    → IsSlab s' a size cs
    → Listed s size p (front ++ (a, bs) ∷ back)
    → Listed s' size p (front ++ (a, cs) ∷ back)
Listed-replace size p [] a bs cs back e d same v h =
    (h.0, v, rw same (Listed-Elsewhere size _ back e d.0 h.2))
Listed-replace {s} {s'} size p ((c, m) ∷ front) a bs cs back e d same v h =
    let ne = (All-middle (λ x. c ≢ x) front a bs bs back d.0).0 in
    let kept : s'.slab c ≡ s.slab c = e.slab c (λ w. ne (sym w)) in
    (
      h.0,
      IsSlab-keep (ap bare kept) (λ b q. e.next b (λ w. ne (sym q ∙ w))) h.1,
      rw kept (Listed-replace size (s.slab c).append front a bs cs back e d.1 same v h.2),
    )

pub IsCache-locks :
    {cpu size : ℕ} {s s' : Slabs} {trees : ℕ → Tree} (l : List (ℕ × List ℕ))
    → IsCache cpu size s trees l
    → LocksOnly l s s'
    → Unlocked s' l
    → IsCache cpu size s' trees l
IsCache-locks {cpu} {size} {s} {s'} {trees} l v k free = record {
  least = v.least;
  most = v.most;
  listed =
      subst (λ h. Listed s' size (h cpu (size - slab_size_offset)) l) (sym k.heads)
        (Listed-locks size _ l k v.listed);
  distinct = v.distinct;
  unlocked = free;
  valid = subst (λ g. IsValid g trees) (sym k.pages) v.valid;
  reserved = subst (λ g. All (λ x. Reserved g trees x.0) l) (sym k.pages) v.reserved;
}
