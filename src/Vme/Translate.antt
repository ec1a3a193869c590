-- ===== src/Vme/Translate.antt =====
-- What the page tables of abstract-machine/am/src/x86/qemu/vme.c mean: the translation that the
-- processor reads out of them, and the shape of the tables of one address space.
use nju_os_lab.Prelude.{
  refl, ℕ, zero, suc, ◌+◌, ◌*◌, ◌%◌, ◌^◌, ◌≤◌, ◌<◌, ◌≡◌, ◌≢◌, ◌⊎◌, inl, inr, Option, none, some,
  false, sym, ap, ◌∙◌, arith, ◌==◌, if◌then◌else◌,
}
use nju_os_lab.Vme.{Machine, pgsize}
use nju_os_lab.Vme.Entries.{above, slot, base}

-- The page that the entry at `cell` leads to, with tables of `left` more levels behind it.
unfoldable pub frame_at : (left cell page : ℕ) → (ℕ → ℕ) → Option ℕ
frame_at zero cell page m = if m cell % 2 == 0 then none else some (base (m cell))
frame_at (suc left) cell page m =
    if m cell % 2 == 0 then none else frame_at left (base (m cell) + 8 * slot left page) page m

-- The physical page of the page `page`, by the tables that the word at `root` leads to. The word is
-- loaded into `cr3`, of which the processor does not read the low bits.
unfoldable pub translate : (root page : ℕ) → (ℕ → ℕ) → Option ℕ
translate root page m = frame_at 3 (base (m root) + 8 * slot 3 page) page m

-- How many tables are missing on the way from the entry at `cell` to the last level.
unfoldable pub missing : (left cell page : ℕ) → (ℕ → ℕ) → ℕ
missing zero cell page m = 0
missing (suc left) cell page m =
    if m cell % 2 == 0 then suc left else missing left (base (m cell) + 8 * slot left page) page m

-- The page numbers of `uvm_area`.
pub record IsUserPage (page : ℕ) : Type 0 where
  pub lower : 2 ^ 32 ≤ page
  pub upper : page < 2 ^ 32 + 2 ^ 27

-- What `pgalloc` answers: whole pages, no page twice.
pub record IsAllocator (pgalloc : ℕ → ℕ → ℕ) : Type 0 where
  pub aligned : (n : ℕ) → pgalloc n pgsize % 4096 ≡ 0
  pub word : (n : ℕ) → pgalloc n pgsize < 2 ^ 64
  pub distinct : (n k : ℕ) → n < k → pgalloc k pgsize ≢ 0 → pgalloc n pgsize ≢ pgalloc k pgsize

-- What each address is in the tables of one address space: the entry with `left` levels behind it, for
-- the pages that agree `above` them. Other addresses have no name.
abbrev pub Names : Type 0
Names = ℕ → Option (ℕ × ℕ)

abbrev pub Named : Names → (left page cell : ℕ) → Type 0
Named names left page cell = names cell ≡ some (left, above left page)

-- The tables of user pages are a tree: an entry leads to one table, and to that of its name. `pgalloc`
-- will answer with other pages.
pub record IsTree (pgalloc : ℕ → ℕ → ℕ) (root : ℕ) (names : Names) (s : Machine) : Type 0 where
  pub rooted : names root ≡ some (4, 0)
  pub there : s.memory root % 2 ≡ 1
  pub down :
      (left page cell : ℕ)
      → IsUserPage page
      → Named names (suc left) page cell
      → s.memory cell % 2 ≡ 1
      → Named names left page (base (s.memory cell) + 8 * slot left page)
  pub free : (n i : ℕ) → s.calls ≤ n → i < 4096 → names (pgalloc n pgsize + i) ≡ none
  pub words : (a : ℕ) → s.memory a < 2 ^ 64

pub parity : (w : ℕ) → (w % 2 ≡ 0) ⊎ (w % 2 ≡ 1)
parity w = ground arith

pub frame_at-absent :
    (left cell page : ℕ) (m : ℕ → ℕ) → m cell % 2 ≡ 0 → frame_at left cell page m ≡ none
unfolding frame_at
frame_at-absent zero cell page m h = ground arith
frame_at-absent (suc left) cell page m h = ground arith

pub missing-absent :
    (left cell page : ℕ) (m : ℕ → ℕ) → m cell % 2 ≡ 0 → missing left cell page m ≡ left
unfolding missing
missing-absent zero cell page m h = refl
missing-absent (suc left) cell page m h = ground arith

pub missing-there :
    (left cell page : ℕ) (m : ℕ → ℕ)
    → m cell % 2 ≡ 1
    → missing (suc left) cell page m ≡ missing left (base (m cell) + 8 * slot left page) page m
unfolding missing
missing-there left cell page m h = let there : (m cell % 2 == 0) ≡ false = ground arith in rw there

pub frame_at-leaf :
    (cell page : ℕ) (m : ℕ → ℕ) → m cell % 2 ≡ 1 → frame_at 0 cell page m ≡ some (base (m cell))
unfolding frame_at
frame_at-leaf cell page m h = ground arith

pub frame_at-step :
    (left cell page : ℕ) (m : ℕ → ℕ)
    → m cell % 2 ≡ 1
    → frame_at (suc left) cell page m ≡ frame_at left (base (m cell) + 8 * slot left page) page m
unfolding frame_at
frame_at-step left cell page m h = let there : (m cell % 2 == 0) ≡ false = ground arith in rw there

module _ {pgalloc : ℕ → ℕ → ℕ} {root : ℕ} {names : Names} {s : Machine}
    (t : IsTree pgalloc root names s) where
  -- All user pages have the root of the tree.
  pub root-Named : (page : ℕ) → IsUserPage page → Named names 4 page root
  root-Named page u = t.rooted ∙ ap (λ k. some (4, k)) (omega (arith, u.upper))

  pub top-Named :
      (page : ℕ) → IsUserPage page → Named names 3 page (base (s.memory root) + 8 * slot 3 page)
  top-Named page u = t.down 3 page root u (root-Named page u) t.there

  module _ (page : ℕ) (u : IsUserPage page) (m : ℕ → ℕ)
      (agree : (left cell : ℕ)
        → Named names left page cell
        → (m cell ≡ s.memory cell)
          ⊎ ((s.memory cell % 2 ≡ 0) × (frame_at left cell page m ≡ none))) where
    -- Two memories translate a page in the same way, if they agree on its entries, or if one has no
    -- entry where the other leads nowhere.
    pub frame_at-agree :
        (left cell : ℕ)
        → Named names left page cell
        → frame_at left cell page m ≡ frame_at left cell page s.memory
    frame_at-agree zero cell named = elim (agree 0 cell named) [
      | inl e ↦ elim (parity (s.memory cell)) [
        | inl z ↦
            frame_at-absent 0 cell page m (omega (arith, e))
            ∙ sym (frame_at-absent 0 cell page s.memory z)
        | inr o ↦
            frame_at-leaf cell page m (omega (arith, e))
            ∙ ap (λ w. some (base w)) e
            ∙ sym (frame_at-leaf cell page s.memory o)
      ]
      | inr h ↦ h.1 ∙ sym (frame_at-absent 0 cell page s.memory h.0)
    ]
    frame_at-agree (suc left) cell named = elim (agree (suc left) cell named) [
      | inl e ↦ elim (parity (s.memory cell)) [
        | inl z ↦
            frame_at-absent (suc left) cell page m (omega (arith, e))
            ∙ sym (frame_at-absent (suc left) cell page s.memory z)
        | inr o ↦
            frame_at-step left cell page m (omega (arith, e))
            ∙ ap (λ w. frame_at left (base w + 8 * slot left page) page m) e
            ∙ frame_at-agree left (base (s.memory cell) + 8 * slot left page)
                (t.down left page cell u named o)
            ∙ sym (frame_at-step left cell page s.memory o)
      ]
      | inr h ↦ h.1 ∙ sym (frame_at-absent (suc left) cell page s.memory h.0)
    ]

    -- Then the whole translation is the same.
    pub translate-agree :
        m root ≡ s.memory root → translate root page m ≡ translate root page s.memory
    unfolding translate
    translate-agree e =
        ap (λ w. frame_at 3 (base w + 8 * slot 3 page) page m) e
        ∙ frame_at-agree 3 (base (s.memory root) + 8 * slot 3 page) (top-Named page u)
