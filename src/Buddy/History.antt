-- ===== src/Buddy/History.antt =====
-- Sequences of calls of `page_alloc` and `page_free` of kernel/src/page.c.
use mathlib.Core.Path.{subst}
use nju_os_lab.Prelude.{
  All, All-map, ℕ, ◌+◌, ◌^◌, ◌≤◌, ◌<◌, ◌≡◌, refl, true, false, Option, none, some, List, [], ◌∷◌,
  arith, ◌==◌, if◌then◌else◌, update,
}
use mathlib.Core.Option
use native.Mathlib.Decide.{ℕ_discrete}
use nju_os_lab.Common.{null}
use nju_os_lab.Buddy.{PageSystem, trans_page_size}
use nju_os_lab.Buddy.Alloc.{page_alloc}
use nju_os_lab.Buddy.Tree.{Tree}
use nju_os_lab.Buddy.Blocks.{Apart, blocks, Taken-All}
use nju_os_lab.Buddy.Valid.{unit_addr, IsValid, SameLayout, Granted}
use nju_os_lab.Buddy.Grant.{Fresh, Outcome, refused, granted, page_alloc-Outcome}
use nju_os_lab.Buddy.Free.{done, page_free}
use nju_os_lab.Buddy.Leak.{page_free-Untouched}

-- A call from outside.
pub data Call : Type 0 where
  alloc : (size : ℕ) → Call
  free : (ptr : ℕ) → Call

-- Address and class of a block that was granted, in front of those granted later.
abbrev pub note_grant : (addr class : ℕ) → List (ℕ × ℕ) → List (ℕ × ℕ)
note_grant addr class bs = if addr == null then bs else (addr, class) ∷ bs

-- The calls in order: the blocks that were granted, and the last state.
unfoldable pub run : List Call → PageSystem → Option (List (ℕ × ℕ) × PageSystem)
run [] s = some ([], s)
run (alloc size ∷ calls) s = elim (page_alloc size s) [
  | none ↦ none
  | some (addr, s') ↦
      Option.map (λ (bs, last). (note_grant addr (trans_page_size size) bs, last)) (run calls s')
]
run (free ptr ∷ calls) s = elim (page_free ptr s) [ done s' ↦ run calls s' | _ ↦ none ]

-- The pointers that are freed lie in the managed memory or not far behind it.
abbrev pub InReach : ℕ → Call → Type 0
InReach begin (alloc size) = Unit {0}
InReach begin (free ptr) = (begin ≤ ptr) × (ptr < begin + 2 ^ 54) × (ptr < 2 ^ 64)

-- No two blocks of the list have a byte in common.
abbrev pub AllApart : List (ℕ × ℕ) → Type 0
AllApart [] = Unit {0}
AllApart (b ∷ bs) = All (λ a. Apart a b) bs × AllApart bs

Apart-sym : (a b : ℕ × ℕ) → Apart a b → Apart b a
Apart-sym a b h = omega arith

-- The blocks that are fresh after a grant were fresh before it, and do not meet the granted block.
Granted-old :
    {req : ℕ} {s s' : PageSystem} {trees : ℕ → Tree} {addr : ℕ}
    → (g : Granted req s trees addr s') → (b : ℕ × ℕ) → Fresh s' (update trees g.number g.tree) b
    → Fresh s trees b × Apart b (addr, req)
Granted-old {req} {s} {s'} {trees} {addr} g b f =
    let n = g.number in
    let same : (n == n) ≡ true = ground arith in
    let taken : All (λ a. Apart b (unit_addr s n + a.0, a.1)) (blocks 12 0 g.tree) =
      rw same at (now n g.in_range) in
    let (here, rest) = Taken-All (λ a. Apart b (unit_addr s n + a.0, a.1)) g.taken taken in
    (
      λ m lm. elim (ℕ_discrete n m) [
        | yes e ↦
            subst (λ k. All (λ a. Apart b (unit_addr s k + a.0, a.1)) (blocks 12 0 (trees k))) e
              rest
        | no ne ↦ let other : (n == m) ≡ false = ground arith in rw other at (now m lm)
      ],
      omega (arith, here, g.address),
    )
  where
    now :
        (m : ℕ)
        → m < s.real_page_num
        → All
            (λ a. Apart b (unit_addr s m + a.0, a.1))
            (blocks 12 0 (update trees g.number g.tree m))
    now m lm =
        All-map _ _ (blocks 12 0 (update trees g.number g.tree m))
          (λ a h. omega (arith, h, g.layout)) (f m (omega (arith, g.layout)))

All-Granted-old :
    {req : ℕ} {s s' : PageSystem} {trees : ℕ → Tree} {addr : ℕ}
    → (g : Granted req s trees addr s') → (bs : List (ℕ × ℕ))
    → All (Fresh s' (update trees g.number g.tree)) bs
    → All (Fresh s trees) bs × All (λ b. Apart b (addr, req)) bs
All-Granted-old g [] h = (tt, tt)
All-Granted-old g (b ∷ bs) h =
    let (f, a) = Granted-old g b h.0 in
    let (fs, as') = All-Granted-old g bs h.1 in ((f, fs), (a, as'))

Fresh-layout :
    {s s' : PageSystem} (trees : ℕ → Tree)
    → SameLayout s s'
    → (b : ℕ × ℕ) → Fresh s' trees b
    → Fresh s trees b
Fresh-layout {s} {s'} trees l b f m lm =
    All-map _ _ (blocks 12 0 (trees m)) (λ a h. omega (arith, h, l)) (f m (omega (arith, l)))

-- What a history from `s` on has done.
pub record Safe (s : PageSystem) (trees : ℕ → Tree) (calls : List Call) : Type 0 where
  pub grants : List (ℕ × ℕ)
  pub last : PageSystem
  pub runs : run calls s ≡ some (grants, last)
  pub apart : AllApart grants
  pub fresh : All (Fresh s trees) grants

All-Fresh-layout :
    {s s' : PageSystem} (trees : ℕ → Tree)
    → SameLayout s s'
    → (bs : List (ℕ × ℕ)) → All (Fresh s' trees) bs
    → All (Fresh s trees) bs
All-Fresh-layout trees l bs h = All-map _ _ bs (λ b f. Fresh-layout trees l b f) h

Reach-layout :
    {s s' : PageSystem}
    → SameLayout s s'
    → (calls : List Call) → All (InReach s.begin_alloc_addr) calls
    → All (InReach s'.begin_alloc_addr) calls
Reach-layout l [] h = tt
Reach-layout l (alloc size ∷ calls) h = (tt, Reach-layout l calls h.1)
Reach-layout l (free ptr ∷ calls) h = (omega (arith, h.0, l), Reach-layout l calls h.1)

alloc-Safe :
    {s : PageSystem} {trees : ℕ → Tree} (size : ℕ) (calls : List Call) (r : Option (ℕ × PageSystem))
    → page_alloc size s ≡ r
    → Outcome size s trees r
    → ((s' : PageSystem) (trees' : ℕ → Tree)
        → IsValid s' trees'
        → SameLayout s s'
        → Safe s' trees' calls)
    → Safe s trees (alloc size ∷ calls)
unfolding run
alloc-Safe {s} {trees} size calls r e (refused {s'} x v l n) ih =
    let rest = ih s' trees v l in
    record {
      grants = rest.grants;
      last = rest.last;
      runs = rw (e, run) (rw (rest.runs, run));
      apart = rest.apart;
      fresh = All-Fresh-layout trees l rest.grants rest.fresh;
    }
alloc-Safe {s} {trees} size calls r e (granted {addr} {s'} ne served fit g new) ih =
    let rest = ih s' (update trees g.number g.tree) g.valid g.layout in
    let (old, beside) = All-Granted-old g rest.grants rest.fresh in
    let some_address : (addr == null) ≡ false = ground arith in
    record {
      grants = (addr, trans_page_size size) ∷ rest.grants;
      last = rest.last;
      runs = rw (e, run) (rw (rest.runs, run) (rw some_address));
      apart = (beside, rest.apart);
      fresh = (new, old);
    }

-- On a valid state every sequence of calls runs to its end, and no two blocks that `page_alloc` grants in it
-- have a byte in common, nor one of them with a block that was allocated before. The addresses that
-- are freed in between are any at all, granted or not, from the first that `page_alloc` manages on
-- and below 2^64, less than 2^54 bytes behind that first one; an address in front of it, `NULL` among
-- them, is not covered.
pub run-Safe :
    (calls : List Call) {s : PageSystem} {trees : ℕ → Tree}
    → IsValid s trees
    → All (InReach s.begin_alloc_addr) calls
    → Safe s trees calls
unfolding run
run-Safe [] {s} v h = record { grants = []; last = s; runs = refl; apart = tt; fresh = tt }
run-Safe (alloc size ∷ calls) {s} v h =
    alloc-Safe size calls _ refl (page_alloc-Outcome v size)
      (λ s' trees' v' l. run-Safe calls v' (Reach-layout l calls h.1))
run-Safe (free ptr ∷ calls) {s} {trees} v h =
    let (s', e, u) = page_free-Untouched v ptr h.0.0 h.0.1 h.0.2 in
    let rest = run-Safe calls {s = s'} u.valid (Reach-layout u.layout calls h.1) in
    record {
      grants = rest.grants;
      last = rest.last;
      runs = rw (e, run) (rw (rest.runs, run));
      apart = rest.apart;
      fresh = All-Fresh-layout trees u.layout rest.grants rest.fresh;
    }
