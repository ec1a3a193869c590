-- ===== src/Vme/Teardown.antt =====
-- `unprotect` of abstract-machine/am/src/x86/qemu/vme.c behind `protect`.
use nju_os_lab.Prelude.{
  ℕ, zero, suc, ◌+◌, ◌*◌, ◌/◌, ◌%◌, ◌^◌, ◌≤◌, ◌<◌, ◌≡◌, ◌≢◌, ◌⊎◌, inl, inr, Bool, true, false, ◌&&◌,
  ◌∷◌, refl, ap, ◌∙◌, arith, ◌==◌,
}
use native.Mathlib.Decide.{ℕ_discrete}
use nju_os_lab.Prelude.Masks.{and_bits, and_bits-high}
use nju_os_lab.Prelude.Flags.{and_bits-low}
use nju_os_lab.Vme.{
  Machine, done, pgsize, pgtables, has, pte_p, pte_u, visit_tables, teardown, unprotect, entry,
  baseof, protect, uvm_area,
}
use nju_os_lab.Vme.Entries.{baseof-base, clear-inside, clear-other}
use nju_os_lab.Vme.Translate.{IsAllocator}
use nju_os_lab.Vme.Walk.{has-present, has-absent}
use nju_os_lab.Vme.Fresh.{IsFree, fresh, protect-fresh}

-- A table without entries for user space is passed over.
visit_tables-none :
    (n index pt : ℕ) (visit : ℕ → Machine → Machine) (s : Machine)
    → ((i : ℕ)
        → i < n
        → has pte_p (s.memory (pt + 8 * (index + i))) && has pte_u (s.memory (pt + 8 * (index + i)))
          ≡ false)
    → visit_tables n index pt visit s ≡ s
unfolding visit_tables
visit_tables-none zero index pt visit s h = refl
visit_tables-none (suc n) index pt visit s h =
    let first : has pte_p (s.memory (entry pt index)) && has pte_u (s.memory (entry pt index))
        ≡ false =
      ap (λ a. has pte_p (s.memory a) && has pte_u (s.memory a)) (omega arith)
      ∙ h 0 (omega arith) in
    rw first (
      visit_tables-none n (index + 1) pt visit s (λ i lt.
        ap (λ a. has pte_p (s.memory a) && has pte_u (s.memory a)) (omega arith)
        ∙ h (i + 1) (omega arith)))

-- A table of level 1 without such entries is given back alone.
teardown-alone :
    (pt : ℕ) (s : Machine)
    → ((i : ℕ)
        → i < 512
        → has pte_p (s.memory (pt + 8 * i)) && has pte_u (s.memory (pt + 8 * i)) ≡ false)
    → teardown 4 pt s ≡ record s { freed = pt ∷ s.freed }
unfolding teardown pgtables
teardown-alone pt s h =
    ap {A = Machine} (λ r. record r { freed = pt ∷ r.freed })
      (visit_tables-none 512 0 pt (λ pt s. teardown 3 pt s) s
        (λ i lt. ap (λ a. has pte_p (s.memory a) && has pte_u (s.memory a)) (omega arith) ∙ h i lt))

and_false : (b : Bool) → b && false ≡ false
and_false true = refl
and_false false = refl

user_bit : (w : ℕ) → and_bits 64 w pte_u ≡ 4 * (w / 4 % 2)
user_bit w = and_bits-high 2 62 w 1 ∙ ap (λ x. 4 * x) (and_bits-low 1 61 (w / 4))

-- The entry of an address space for a table at `p`.
root_word-user : (p : ℕ) → p % 4096 ≡ 0 → has pte_p (p + 5) && has pte_u (p + 5) ≡ true
root_word-user p al =
    let there : has pte_p (p + 5) ≡ true = has-present (p + 5) (omega arith) in
    let user : (and_bits 64 (p + 5) pte_u == 0) ≡ false = ground (arith, user_bit (p + 5)) in
    rw (there, user)

visit_tables-one :
    (pt : ℕ) (visit : ℕ → Machine → Machine) (s : Machine)
    → has pte_p (s.memory (entry pt 0)) && has pte_u (s.memory (entry pt 0)) ≡ true
    → visit_tables 1 0 pt visit s ≡ visit (baseof (s.memory (entry pt 0))) s
unfolding visit_tables
visit_tables-one pt visit s h = rw h

unprotect-visit :
    (root : ℕ) (s : Machine) → unprotect root s ≡ visit_tables 1 0 root (λ pt s. teardown 4 pt s) s
unfolding unprotect teardown pgtables
unprotect-visit root s = refl

unprotect-root :
    (root p : ℕ) (s : Machine)
    → s.memory root ≡ p + 5
    → p % 4096 ≡ 0
    → p < 2 ^ 64
    → unprotect root s ≡ teardown 4 p s
unprotect-root root p s e al lt =
    let word : s.memory (entry root 0) ≡ p + 5 = ap s.memory (omega arith) ∙ e in
    let at : baseof (p + 5) ≡ p = baseof-base (p + 5) (omega arith) ∙ omega arith in
    unprotect-visit root s
    ∙ visit_tables-one root (λ pt s. teardown 4 pt s) s
        (ap (λ w. has pte_p w && has pte_u w) word ∙ root_word-user p al)
    ∙ ap (λ w. teardown 4 (baseof w) s) word
    ∙ ap (λ q. teardown 4 q s) at

-- The table that `protect` makes has no entries for user space.
module _ {kpt root p : ℕ} (s : Machine) (apart : (root < p) ⊎ (p + 4096 ≤ root))
    (kernel : (kpt < p) ⊎ (p + 4096 ≤ kpt)) (closed : has pte_u (s.memory kpt) ≡ false) where
  other_entry : (i : ℕ) → i < 512 → i ≢ 0 → (fresh kpt root p s).memory (p + 8 * i) ≡ 0
  other_entry i lt ne =
      let a : (root == p + 8 * i) ≡ false = ground (arith, apart) in
      let b : (p + 8 * 0 == p + 8 * i) ≡ false = ground arith in
      rw (a, b) (clear-inside 512 p s.memory i lt)

  kernel_entry : (fresh kpt root p s).memory (p + 8 * 0) ≡ s.memory kpt
  kernel_entry =
      let a : (root == p + 8 * 0) ≡ false = ground (arith, apart) in
      let b : (p + 8 * 0 == p + 8 * 0) ≡ true = ground arith in
      rw (a, b)
        (clear-other 512 p s.memory (kpt + 8 * 0)
            (elim kernel [ inl h ↦ inl (omega arith) | inr h ↦ inr (omega arith) ])
          ∙ ap s.memory (omega arith))

  no_user :
      (i : ℕ)
      → i < 512
      → has pte_p ((fresh kpt root p s).memory (p + 8 * i))
          && has pte_u ((fresh kpt root p s).memory (p + 8 * i))
        ≡ false
  no_user i lt = elim (ℕ_discrete i 0) [
    | yes e ↦
        ap
          (λ i.
            has pte_p ((fresh kpt root p s).memory (p + 8 * i))
            && has pte_u ((fresh kpt root p s).memory (p + 8 * i)))
          e
        ∙ ap (λ w. has pte_p w && has pte_u w) kernel_entry
        ∙ ap (λ b. has pte_p (s.memory kpt) && b) closed
        ∙ and_false (has pte_p (s.memory kpt))
    | no ne ↦
        ap (λ w. has pte_p w && has pte_u w) (other_entry i lt ne)
        ∙ ap (λ b. b && has pte_u 0) (has-absent 0 refl)
  ]

-- `unprotect` right behind `protect`, where `pgalloc` has a page, away from `root` and from `kpt`: it gives
-- back the one page that `protect` took, and no page of the kernel, if the kernel's entry is not open
-- to user code.
pub unprotect-protect :
    (pgalloc : ℕ → ℕ → ℕ) (kpt root : ℕ) (s : Machine)
    → IsAllocator pgalloc
    → IsFree pgalloc root s
    → pgalloc s.calls pgsize ≢ 0
    → (kpt < pgalloc s.calls pgsize) ⊎ (pgalloc s.calls pgsize + 4096 ≤ kpt)
    → has pte_u (s.memory kpt) ≡ false
    → (s' : Machine) × (protect pgalloc kpt root s
        ≡ done (record { pgsize = pgsize; area = uvm_area }) s')
      × ((unprotect root s').freed ≡ pgalloc s.calls pgsize ∷ s.freed)
unprotect-protect pgalloc kpt root s al f ne kernel closed =
    let p = pgalloc s.calls pgsize in
    let apart = f.outside s.calls (omega arith) in
    (
      fresh kpt root p s,
      protect-fresh pgalloc kpt root s al ne,
      ap (λ r. r.freed)
          (unprotect-root root p (fresh kpt root p s) (ground arith) (al.aligned s.calls)
              (al.word s.calls)
            ∙ teardown-alone p (fresh kpt root p s) (no_user s apart kernel closed)),
    )
