-- ===== src/Buddy/Scan.antt =====
-- The search of `page_alloc` of kernel/src/page.c for a unit with enough space, and its locks.
use native.Mathlib.Decide.{ℕ_discrete}
use mathlib.Core.Path.{subst}
use nju_os_lab.Prelude.{
  ℕ, zero, suc, ◌+◌, ◌≤◌, ◌<◌, ◌≡◌, ◌∙◌, refl, inl, inr, Option, none, some, arith, leb, Bool-cases,
  update,
}
use nju_os_lab.Common.{lock, unlock}
use nju_os_lab.Buddy.{PageSystem}
use nju_os_lab.Buddy.Alloc.{find_page}

-- The byte of the root of unit `i`: the largest class that the unit can serve.
abbrev pub root_byte : PageSystem → ℕ → ℕ
root_byte s i = s.nodes (s.page_pool i) 1

-- The outcome of the search over the units from `i` up to `end`. After a miss the lock words are as
-- before, after a hit those of the other units are.
pub data Searched (s : PageSystem) (req i end : ℕ) (locks : ℕ → ℕ)
    : Option (Option ℕ × (ℕ → ℕ)) → Type 0 where
  missed :
      {locks' : ℕ → ℕ}
      → ((j : ℕ) → i ≤ j → j < end → root_byte s j < req)
      → ((j : ℕ) → locks' j ≡ locks j)
      → Searched s req i end locks (some (none, locks'))
  hit :
      {locks' : ℕ → ℕ} {m : ℕ}
      → i ≤ m
      → m < end
      → req ≤ root_byte s m
      → ((j : ℕ) → i ≤ j → j < m → root_byte s j < req)
      → ((j : ℕ) → (m ≡ j → ⊥) → locks' j ≡ locks j)
      → Searched s req i end locks (some (some m, locks'))

Searched-next :
    {s : PageSystem} {req i end : ℕ} {locks locks' : ℕ → ℕ} {r : Option (Option ℕ × (ℕ → ℕ))}
    → root_byte s i < req
    → ((j : ℕ) → locks' j ≡ locks j)
    → Searched s req (i + 1) end locks' r
    → Searched s req i end locks r
Searched-next {s} {req} {i} lt same (missed all keep) =
    missed
      (λ j a b. elim (ℕ_discrete i j) [
        | yes e ↦ subst (λ k. root_byte s k < req) e lt
        | no ne ↦ all j (omega arith) b
      ])
      (λ j. keep j ∙ same j)
Searched-next {s} {req} {i} lt same (hit lo hi fit first keep) =
    hit (omega arith) hi fit
      (λ j a b. elim (ℕ_discrete i j) [
        | yes e ↦ subst (λ k. root_byte s k < req) e lt
        | no ne ↦ first j (omega arith) b
      ])
      (λ j ne. keep j ne ∙ same j)

pub lock_free : (w : ℕ) → w ≡ 0 → lock w ≡ some 1
unfolding lock
lock_free w h = ground arith

-- With all locks free the search ends; it finds the first unit that can serve the class.
pub find_page-Searched :
    (s : PageSystem) (n i end req : ℕ) (locks : ℕ → ℕ)
    → i + n ≡ end
    → ((j : ℕ) → j < end → locks j ≡ 0)
    → Searched s req i end locks (find_page s n i req locks)
unfolding find_page unlock
find_page-Searched s zero i end req locks e h = missed (λ j a b. absurd (omega arith)) (λ j. refl)
find_page-Searched s (suc n) i end req locks e h =
    let taken = lock_free (locks i) (h i (omega arith)) in
    let put_back : (j : ℕ) → update locks i (unlock 1) j ≡ locks j = λ j. ground (arith, h j) in
    rw (taken, find_page)
      (elim (Bool-cases (leb req (root_byte s i))) [
        | inl fits ↦ rw fits (
            hit (omega arith) (omega arith) (ground arith) (λ j a b. absurd (omega arith))
              (λ j ne. ground arith))
        | inr full ↦ rw full (
            Searched-next (ground arith) put_back (
              find_page-Searched s n (i + 1) end req _ (omega arith) (λ j lt. put_back j ∙ h j lt)))
      ])
