-- ===== src/Vme/Walk.antt =====
-- `ptwalk` of abstract-machine/am/src/x86/qemu/vme.c on the tables of an address space.
use native.Mathlib.Decide.{ℕ_discrete}
use mathlib.Core.Path.{subst}
use nju_os_lab.Prelude.{
  ℕ, zero, suc, ◌+◌, ◌-◌, ◌*◌, ◌%◌, ◌^◌, ◌≤◌, ◌<◌, ◌≡◌, ◌≢◌, inl, inr, true, false, refl, sym, ap,
  ◌∙◌, arith, ◌==◌,
}
use nju_os_lab.Prelude.Masks.{and_bits}
use nju_os_lab.Prelude.Flags.{or_bits}
use nju_os_lab.Vme.{
  Machine, Paging, done, panic, no_page, pgsize, ptlevels, pte_p, has, pgallocz, write, clear,
  next_page, entry, indexof, pgtables, ptwalk_from, ◌>>=◌,
}
use nju_os_lab.Vme.Entries.{slot, base, page_of, low_bit, baseof-base, indexof-slot, or_bits-entry}
use nju_os_lab.Vme.Translate.{
  IsUserPage, IsAllocator, Names, Named, IsTree, parity, missing, missing-absent, missing-there,
}
use nju_os_lab.Vme.Grow.{Keeps, linked, grown, grown_cell, grown_empty}

pub has-present : (w : ℕ) → w % 2 ≡ 1 → has pte_p w ≡ true
has-present w h =
    let there : (and_bits 64 w pte_p == 0) ≡ false = ground (arith, low_bit w) in rw there

pub has-absent : (w : ℕ) → w % 2 ≡ 0 → has pte_p w ≡ false
has-absent w h =
    let there : (and_bits 64 w pte_p == 0) ≡ true = ground (arith, low_bit w) in rw there

-- The entry for a table: it may be written, and used by user code.
table_word : (p : ℕ) → p % 4096 ≡ 0 → p < 2 ^ 64 → or_bits 64 (or_bits 64 p pte_p) 6 ≡ p + 7
unfolding or_bits
table_word p al lt =
    let whole : p ≡ p + 0 = omega arith in
    let first : or_bits 64 p 1 ≡ p + 1 =
      ap (λ x. or_bits 64 x 1) whole ∙ or_bits-entry p 0 1 al lt (omega arith) (omega arith) in
    ap (λ x. or_bits 64 x 6) first ∙ or_bits-entry p 1 6 al lt (omega arith) (omega arith)

-- The entries from `cell` on lead to the entry `leaf` of the last level.
pub data Reaches (page : ℕ) (m : ℕ → ℕ) : (left cell leaf : ℕ) → Type 0 where
  here : {cell : ℕ} → Reaches page m 0 cell cell
  step :
      {left cell leaf : ℕ}
      → m cell % 2 ≡ 1
      → Reaches page m left (base (m cell) + 8 * slot left page) leaf
      → Reaches page m (suc left) cell leaf

module _ (pgalloc : ℕ → ℕ → ℕ) where
  pub next_page-present :
      (cell flags : ℕ) (s : Machine)
      → s.memory cell % 2 ≡ 1
      → s.memory cell < 2 ^ 64
      → next_page pgalloc cell flags s ≡ done (base (s.memory cell)) s
  unfolding next_page
  next_page-present cell flags s h lt =
      rw (has-present (s.memory cell) h, baseof-base (s.memory cell) lt)

  next_page-refused :
      (cell flags : ℕ) (s : Machine)
      → s.memory cell % 2 ≡ 0
      → pgalloc s.calls pgsize ≡ 0
      → next_page pgalloc cell flags s ≡ panic no_page
  unfolding next_page pgallocz
  next_page-refused cell flags s h z = rw (has-absent (s.memory cell) h, z)

  next_page-linked :
      (cell : ℕ) (s : Machine)
      → IsAllocator pgalloc
      → s.memory cell % 2 ≡ 0
      → pgalloc s.calls pgsize ≢ 0
      → next_page pgalloc cell 6 s
        ≡ done (pgalloc s.calls pgsize) (linked cell (pgalloc s.calls pgsize) s)
  unfolding next_page pgallocz
  next_page-linked cell s al h ne =
      let link : ℕ → Machine = λ w.
        write cell w (record s {
          calls = suc s.calls;
          memory = clear 512 (pgalloc s.calls pgsize) s.memory;
        }) in
      let ok : (pgalloc s.calls pgsize == 0) ≡ false = ground arith in
      rw (has-absent (s.memory cell) h, ok)
        (ap (λ w. done (pgalloc s.calls pgsize) (link w))
          (table_word (pgalloc s.calls pgsize) (al.aligned s.calls) (al.word s.calls)))

-- How a walk from `cell` ends: at the entry for the page, on tables of the same translation, or because
-- `pgalloc` had no page.
pub data Walked (pgalloc : ℕ → ℕ → ℕ) (root left cell page : ℕ) (names : Names) (s : Machine)
    : Paging ℕ → Type 0 where
  no_memory :
      (n : ℕ)
      → s.calls ≤ n
      → n < s.calls + missing left cell page s.memory
      → pgalloc n pgsize ≡ 0
      → Walked pgalloc root left cell page names s (panic no_page)
  walked :
      (leaf : ℕ) (s' : Machine) (names' : Names)
      → IsTree pgalloc root names' s'
      → Keeps root names s names' s'
      → Named names' 0 page leaf
      → Reaches page s'.memory left cell leaf
      → s'.calls ≡ s.calls + missing left cell page s.memory
      → Walked pgalloc root left cell page names s (done leaf s')

module _ {root : ℕ} {names names1 : Names} {s s1 : Machine} (k : Keeps root names s names1 s1) where
  pub Keeps-trans :
      {names2 : Names} {s2 : Machine}
      → Keeps root names1 s1 names2 s2
      → Keeps root names s names2 s2
  Keeps-trans k' = record {
    later_calls = omega (arith, k.later_calls, k'.later_calls);
    same_name = λ c e. k'.same_name c (k.same_name c e);
    same_entry = λ c e o.
        k'.same_entry c (k.same_name c e) (omega (arith, k.same_entry c e o)) ∙ k.same_entry c e o;
    same_leaf = λ c e. k'.same_leaf c (k.same_name c e) ∙ k.same_leaf c e;
    same_translation = λ page u. k'.same_translation page u ∙ k.same_translation page u;
  }

  -- A round of `ptwalk` in front of a walk.
  Walked-step :
      {pgalloc : ℕ → ℕ → ℕ} {left cell page : ℕ} {r : Paging ℕ}
      → Named names1 (suc left) page cell
      → s1.memory cell % 2 ≡ 1
      → s1.calls + missing left (base (s1.memory cell) + 8 * slot left page) page s1.memory
        ≡ s.calls + missing (suc left) cell page s.memory
      → Walked pgalloc root left (base (s1.memory cell) + 8 * slot left page) page names1 s1 r
      → Walked pgalloc root (suc left) cell page names s r
  Walked-step n o m (no_memory c le lt z) =
      no_memory c (omega (arith, k.later_calls)) (omega (arith, m)) z
  Walked-step {left} {cell} {page} n o m (walked leaf s' names' t k' e w calls) =
      walked leaf s' names' t (Keeps-trans k') e
        (step (omega (arith, k'.same_entry cell n o)) (
          subst (λ x. Reaches page s'.memory left (base x + 8 * slot left page) leaf)
            (sym (k'.same_entry cell n o)) w))
        (calls ∙ m)

Keeps-refl : {root : ℕ} {names : Names} {s : Machine} → Keeps root names s names s
Keeps-refl = record {
  later_calls = omega arith;
  same_name = λ c e. e;
  same_entry = λ c e o. refl;
  same_leaf = λ c e. refl;
  same_translation = λ page u. refl;
}

-- A round of `ptwalk` at `cell`.
data Next (pgalloc : ℕ → ℕ → ℕ) (root left cell page : ℕ) (names : Names) (s : Machine)
    : Paging ℕ → Type 0 where
  refused :
      pgalloc s.calls pgsize ≡ 0
      → 0 < missing (suc left) cell page s.memory
      → Next pgalloc root left cell page names s (panic no_page)
  table :
      (s1 : Machine) (names1 : Names)
      → IsTree pgalloc root names1 s1
      → Keeps root names s names1 s1
      → s1.memory cell % 2 ≡ 1
      → s1.calls + missing left (base (s1.memory cell) + 8 * slot left page) page s1.memory
        ≡ s.calls + missing (suc left) cell page s.memory
      → Next pgalloc root left cell page names s (done (base (s1.memory cell)) s1)

next_page-Next :
    (pgalloc : ℕ → ℕ → ℕ) {root : ℕ} {names : Names} {s : Machine} (left cell page : ℕ)
    → IsAllocator pgalloc
    → IsTree pgalloc root names s
    → Named names (suc left) page cell
    → Next pgalloc root left cell page names s (next_page pgalloc cell 6 s)
next_page-Next pgalloc {root} {names} {s} left cell page al t n =
    let N = Next pgalloc root left cell page names s in
    elim (parity (s.memory cell)) [
      | inr o ↦ subst N (sym (next_page-present pgalloc cell 6 s o (t.words cell))) (
          table s names t Keeps-refl o
            (ap (λ k. s.calls + k) (sym (missing-there left cell page s.memory o))))
      | inl z ↦ elim (ℕ_discrete (pgalloc s.calls pgsize) 0) [
        | yes e ↦
            subst N (sym (next_page-refused pgalloc cell 6 s z e))
              (refused e (omega (arith, missing-absent (suc left) cell page s.memory z)))
        | no ne ↦
            let p = pgalloc s.calls pgsize in
            let (names1, t1, k) = grown al t left page cell n z ne in
            let s1 = linked cell p s in
            let empty = grown_empty al t left page cell n z ne (slot left page) (omega arith) in
            let (o, at) = grown_cell al t left page cell n z ne in
            subst N
              (ap (λ a. done a (linked cell p s)) at
                ∙ sym (next_page-linked pgalloc cell s al z ne))
              (table s1 names1 t1 k o (
                omega (
                  arith,
                  missing-absent (suc left) cell page s.memory z,
                  missing-absent left (base (s1.memory cell) + 8 * slot left page) page s1.memory
                      (ap (λ w. w % 2) empty),
                )))
      ]
    ]

module _ (pgalloc : ℕ → ℕ → ℕ) {root : ℕ} (addr : ℕ) (al : IsAllocator pgalloc)
    (u : IsUserPage (page_of addr)) where
  -- A round and the walk behind it.
  Next-Walked :
      {left cell : ℕ} {names : Names} {s : Machine} {r : Paging ℕ}
      → Named names (suc left) (page_of addr) cell
      → Next pgalloc root left cell (page_of addr) names s r
      → ((names1 : Names) (s1 : Machine)
          → IsTree pgalloc root names1 s1
          → (cur : ℕ) → Named names1 left (page_of addr) (cur + 8 * slot left (page_of addr))
          → Walked pgalloc root left
              (cur + 8 * slot left (page_of addr))
              (page_of addr)
              names1
              s1
              (ptwalk_from pgalloc left cur addr 6 s1))
      → Walked pgalloc root
          (suc left)
          cell
          (page_of addr)
          names
          s
          (r >>= λ next s. ptwalk_from pgalloc left next addr 6 s)
  Next-Walked {s} n (refused z lt) rest = no_memory s.calls (omega arith) (omega arith) z
  Next-Walked {left} {cell} n (table s1 names1 t k o m) rest =
      let n1 = k.same_name cell n in
      Walked-step k n1 o m
        (rest names1 s1 t (base (s1.memory cell)) (t.down left (page_of addr) cell u n1 o))

  -- The loop of `ptwalk` for an address of user space.
  pub ptwalk_from-Walked :
      (left cur : ℕ) (names : Names) (s : Machine)
      → IsTree pgalloc root names s
      → left ≤ ptlevels
      → Named names left (page_of addr) (cur + 8 * slot left (page_of addr))
      → Walked pgalloc root left
          (cur + 8 * slot left (page_of addr))
          (page_of addr)
          names
          s
          (ptwalk_from pgalloc left cur addr 6 s)
  unfolding ptwalk_from
  ptwalk_from-Walked zero cur names s t le n =
      let at : cur + 8 * slot 0 (page_of addr) ≡ entry cur (indexof addr (pgtables ptlevels)) =
        ap (entry cur) (sym (indexof-slot 0 addr le (omega (arith, u.upper)))) in
      subst
        (λ a.
          Walked pgalloc root 0 (cur + 8 * slot 0 (page_of addr)) (page_of addr) names s (done a s))
        at
        (walked (cur + 8 * slot 0 (page_of addr)) s names t Keeps-refl n here
          (unfold missing in omega arith))
  ptwalk_from-Walked (suc left) cur names s t le n =
      let cell = cur + 8 * slot (suc left) (page_of addr) in
      let at : cell ≡ entry cur (indexof addr (pgtables (ptlevels - suc left))) =
        ap (entry cur) (sym (indexof-slot (suc left) addr le (omega (arith, u.upper)))) in
      subst
        (λ a.
          Walked pgalloc root (suc left) cell (page_of addr) names s
            (next_page pgalloc a 6 s >>= λ next s. ptwalk_from pgalloc left next addr 6 s))
        at
        (Next-Walked n (next_page-Next pgalloc left cell (page_of addr) al t n)
          (λ names1 s1 t1 cur1 n1. ptwalk_from-Walked left cur1 names1 s1 t1 (omega arith) n1))
