-- ===== src/Vme/Leaf.antt =====
-- Writes of abstract-machine/am/src/x86/qemu/vme.c to an entry of the last level, and walks on tables
-- that are all there.
use mathlib.Core.Path.{subst}
use nju_os_lab.Prelude.{
  ℕ, zero, suc, ◌+◌, ◌-◌, ◌*◌, ◌%◌, ◌^◌, ◌≤◌, ◌<◌, ◌≡◌, ◌≢◌, ◌⊎◌, inl, inr, some, false, refl, sym,
  ap, ◌∙◌, arith, ◌==◌,
}
use nju_os_lab.Vme.{
  Machine, done, ptlevels, write, next_page, entry, indexof, pgtables, ptwalk_from, ◌>>=◌,
}
use nju_os_lab.Vme.Entries.{above, slot, base, page_of, indexof-slot}
use nju_os_lab.Vme.Translate.{
  IsUserPage, Names, Named, IsTree, frame_at, translate, frame_at-step, root-Named, translate-agree,
}
use nju_os_lab.Vme.Grow.{some-pair}
use nju_os_lab.Vme.Walk.{Reaches, here, step, next_page-present}

-- The translation is what stands in the entry that the tables lead to.
pub Reaches-frame_at :
    {page : ℕ} {m : ℕ → ℕ} {left cell leaf : ℕ}
    → Reaches page m left cell leaf
    → frame_at left cell page m ≡ frame_at 0 leaf page m
Reaches-frame_at here = refl
Reaches-frame_at {page} {m} {cell} (step {left} o w) =
    frame_at-step left cell page m o ∙ Reaches-frame_at w

pub Reaches-translate :
    {page root leaf : ℕ} {m : ℕ → ℕ}
    → m root % 2 ≡ 1
    → Reaches page m 4 root leaf
    → translate root page m ≡ frame_at 0 leaf page m
unfolding translate
Reaches-translate {page} {root} {m} o w = sym (frame_at-step 3 root page m o) ∙ Reaches-frame_at w

-- A walk on tables that are there allocates nothing.
pub Reaches-ptwalk_from :
    (pgalloc : ℕ → ℕ → ℕ) (addr flags : ℕ) {s : Machine}
    → addr < 2 ^ 48
    → ((a : ℕ) → s.memory a < 2 ^ 64)
    → (left cur : ℕ) {leaf : ℕ} → left ≤ ptlevels
    → Reaches (page_of addr) s.memory left (cur + 8 * slot left (page_of addr)) leaf
    → ptwalk_from pgalloc left cur addr flags s ≡ done leaf s
unfolding ptwalk_from
Reaches-ptwalk_from pgalloc addr flags {s} lt words zero cur le here =
    ap (λ i. done (entry cur i) s) (indexof-slot 0 addr le lt)
Reaches-ptwalk_from pgalloc addr flags {s} lt words (suc left) cur le (step o w) =
    let at : entry cur (indexof addr (pgtables (ptlevels - suc left)))
        ≡ cur + 8 * slot (suc left) (page_of addr) =
      ap (entry cur) (indexof-slot (suc left) addr le lt) in
    let cell = cur + 8 * slot (suc left) (page_of addr) in
    ap (λ a. next_page pgalloc a flags s >>= λ next s. ptwalk_from pgalloc left next addr flags s)
      at
    ∙ ap (λ r. r >>= λ next s. ptwalk_from pgalloc left next addr flags s)
        (next_page-present pgalloc cell flags s o (words cell))
    ∙ Reaches-ptwalk_from pgalloc addr flags lt words left (base (s.memory cell)) (omega arith) w

levels : (l page page' : ℕ) → page' ≢ page → (l ≢ 0) ⊎ (above l page' ≢ page)
levels zero page page' ne = inr ne
levels (suc l) page page' ne = inl (λ z. absurd (omega arith))

module _ {pgalloc : ℕ → ℕ → ℕ} {root : ℕ} {names : Names} {s : Machine}
    (t : IsTree pgalloc root names s) (page leaf v : ℕ) (u : IsUserPage page)
    (n : Named names 0 page leaf) where
  -- Entries of upper levels, and of other pages, stand elsewhere.
  apart : (c l k : ℕ) → names c ≡ some (l, k) → (l ≢ 0) ⊎ (k ≢ page) → c ≢ leaf
  apart c l k e other same =
      let (el, ek) = some-pair (sym e ∙ ap names same ∙ n) in
      elim other [ inl ne ↦ ne el | inr ne ↦ ne ek ]

  kept_entry :
      (c l k : ℕ)
      → names c ≡ some (l, k)
      → (l ≢ 0) ⊎ (k ≢ page)
      → (write leaf v s).memory c ≡ s.memory c
  kept_entry c l k e other =
      let ne : (leaf == c) ≡ false = ground (arith, apart c l k e other) in rw ne

  kept_root : (write leaf v s).memory root ≡ s.memory root
  kept_root = kept_entry root 4 0 t.rooted (inl (λ e. absurd (omega arith)))

  -- The tables stay a tree.
  pub leaf-IsTree : v < 2 ^ 64 → IsTree pgalloc root names (write leaf v s)
  leaf-IsTree lt = record {
    rooted = t.rooted;
    there = omega (arith, kept_root, t.there);
    down = λ l page' c u' e o.
        let same = kept_entry c (suc l) (above (suc l) page') e (inl (λ z. absurd (omega arith))) in
        subst (λ w. Named names l page' (base w + 8 * slot l page')) (sym same)
          (t.down l page' c u' e (omega (arith, same, o)));
    free = t.free;
    words = λ a. ground (arith, t.words a);
  }

  -- The translation of other pages stays.
  pub leaf-others :
      (page' : ℕ)
      → IsUserPage page'
      → page' ≢ page
      → translate root page' (write leaf v s).memory ≡ translate root page' s.memory
  leaf-others page' u' ne =
      translate-agree t page' u' (write leaf v s).memory
        (λ l c e. inl (kept_entry c l (above l page') e (levels l page page' ne))) kept_root

  -- The tables still lead to the entry.
  leaf-Reaches :
      (left cell : ℕ)
      → Named names left page cell
      → Reaches page s.memory left cell leaf
      → Reaches page (write leaf v s).memory left cell leaf
  leaf-Reaches zero cell e here = here
  leaf-Reaches (suc left) cell e (step o w) =
      let same =
        kept_entry cell (suc left) (above (suc left) page) e (inl (λ z. absurd (omega arith))) in
      let next = base (s.memory cell) + 8 * slot left page in
      step (omega (arith, same, o)) (
        subst (λ x. Reaches page (write leaf v s).memory left (base x + 8 * slot left page) leaf)
          (sym same) (leaf-Reaches left next (t.down left page cell u e o) w))

  -- So `ptwalk` finds it again, and the translation of the page is what was written.
  pub leaf_there :
      Reaches page s.memory 4 root leaf
      → Reaches page (write leaf v s).memory 4 root leaf
        × (translate root page (write leaf v s).memory
            ≡ frame_at 0 leaf page (write leaf v s).memory)
  leaf_there w =
      let w' = leaf-Reaches 4 root (root-Named t page u) w in
      (w', Reaches-translate (omega (arith, kept_root, t.there)) w')

  pub leaf_written : (write leaf v s).memory leaf ≡ v
  leaf_written = ground arith
