-- ===== src/Vme/Fresh.antt =====
-- `protect` of abstract-machine/am/src/x86/qemu/vme.c: a new address space maps nothing.
use mathlib.Core.Path.{subst}
use native.Mathlib.Decide.{ℕ_discrete}
use nju_os_lab.Prelude.{
  ℕ, zero, suc, ◌+◌, ◌-◌, ◌*◌, ◌/◌, ◌%◌, ◌^◌, ◌≤◌, ◌<◌, ◌≡◌, ◌≢◌, ◌⊎◌, inl, inr, Option, none, some,
  true, false, refl, sym, ap, ◌∙◌, arith, ◌==◌, if◌then◌else◌, update,
}
use nju_os_lab.Prelude.Flags.{or_bits}
use nju_os_lab.Vme.{
  Machine, Paging, done, panic, no_page, pgsize, write, clear, ◌>>=◌, protect, pgallocz,
  share_areas, share, vm_areas, AddrSpace, uvm_area, pte_p, pte_u,
}
use nju_os_lab.Vme.Entries.{above, slot, base, or_bits-entry, clear-inside, clear-lt}
use nju_os_lab.Vme.Grow.{some-pair, pair-some, none-ne-some}
use nju_os_lab.Vme.Translate.{
  IsUserPage, IsAllocator, Names, Named, IsTree, translate, frame_at-absent,
}

-- No address space: `pgalloc` will not answer with a page around `root`.
pub record IsFree (pgalloc : ℕ → ℕ → ℕ) (root : ℕ) (s : Machine) : Type 0 where
  pub outside : (n : ℕ) → s.calls ≤ n → (root < pgalloc n pgsize) ⊎ (pgalloc n pgsize + 4096 ≤ root)
  pub words : (a : ℕ) → s.memory a < 2 ^ 64

-- The machine after `protect`, with its table at `p`.
abbrev pub fresh : (kpt root p : ℕ) → Machine → Machine
fresh kpt root p s =
    let m = clear 512 p s.memory in
    write root (p + 5)
      (record s { calls = suc s.calls; memory = update m (p + 8 * 0) (m (kpt + 8 * 0)) })

-- The root, and the one entry for user space.
pub names_of : (root p : ℕ) → Names
names_of root p c = if c == root then some (4, 0) else if c == p + 256 then some (3, 32) else none

areas_shared :
    (kpt upt : ℕ) (m : ℕ → ℕ)
    → share_areas kpt upt vm_areas m ≡ update m (upt + 8 * 0) (m (kpt + 8 * 0))
unfolding share_areas share nju_os_lab.Vme.indexof nju_os_lab.Vme.pgtables
    nju_os_lab.Prelude.Masks.and_bits
areas_shared kpt upt m = refl

root_word : (p : ℕ) → p % 4096 ≡ 0 → p < 2 ^ 64 → or_bits 64 (or_bits 64 p pte_p) pte_u ≡ p + 5
unfolding or_bits
root_word p al lt =
    let whole : p ≡ p + 0 = omega arith in
    let first : or_bits 64 p 1 ≡ p + 1 =
      ap (λ x. or_bits 64 x 1) whole ∙ or_bits-entry p 0 1 al lt (omega arith) (omega arith) in
    ap (λ x. or_bits 64 x 4) first ∙ or_bits-entry p 1 4 al lt (omega arith) (omega arith)

pub protect-fresh :
    (pgalloc : ℕ → ℕ → ℕ) (kpt root : ℕ) (s : Machine)
    → IsAllocator pgalloc
    → pgalloc s.calls pgsize ≢ 0
    → protect pgalloc kpt root s
      ≡ done
          (record { pgsize = pgsize; area = uvm_area })
          (fresh kpt root (pgalloc s.calls pgsize) s)
unfolding protect pgallocz
protect-fresh pgalloc kpt root s al ne =
    let p = pgalloc s.calls pgsize in
    let there : (pgalloc s.calls pgsize == 0) ≡ false = ground arith in
    rw (
      there,
      root_word p (al.aligned s.calls) (al.word s.calls),
      areas_shared kpt p (clear 512 p s.memory),
    )

module _ {pgalloc : ℕ → ℕ → ℕ} {root : ℕ} {s : Machine} (kpt : ℕ) (al : IsAllocator pgalloc)
    (f : IsFree pgalloc root s) (granted : pgalloc s.calls pgsize ≢ 0) where
  p : ℕ
  p = pgalloc s.calls pgsize

  p_lem : p ≡ pgalloc s.calls pgsize
  unfolding p
  p_lem = refl

  s' : Machine
  s' = fresh kpt root p s

  apart : (root < p) ⊎ (p + 4096 ≤ root)
  unfolding p
  apart = f.outside s.calls (omega arith)

  at_root : s'.memory root ≡ p + 5
  unfolding s'
  at_root = ground arith

  -- The entry for user space is clear.
  at_user : s'.memory (p + 256) ≡ 0
  unfolding s'
  at_user =
      let other : (root == p + 256) ≡ false = ground (arith, apart) in
      let other' : (p + 8 * 0 == p + 256) ≡ false = ground arith in
      rw (other, other')
        (ap (clear 512 p s.memory) (omega arith) ∙ clear-inside 512 p s.memory 32 (omega arith))

  to_user : (page : ℕ) → IsUserPage page → base (s'.memory root) + 8 * slot 3 page ≡ p + 256
  unfolding p
  to_user page u =
      let table : base (s'.memory root) ≡ p = omega (arith, at_root, al.aligned s.calls) in
      let index : slot 3 page ≡ 32 = omega (arith, u.lower, u.upper) in omega (arith, table, index)

  fresh-words : (a : ℕ) → s'.memory a < 2 ^ 64
  unfolding s' p
  fresh-words a =
      let cleared : (a : ℕ) → clear 512 p s.memory a < 2 ^ 64 =
        λ a. clear-lt 512 p (2 ^ 64) s.memory a (omega arith) f.words in
      ground (arith, al.aligned s.calls, al.word s.calls, cleared a, cleared (kpt + 8 * 0))

  names_of-root : names_of root p root ≡ some (4, 0)
  unfolding names_of
  names_of-root = ground arith

  names_of-user : names_of root p (p + 256) ≡ some (3, 32)
  unfolding names_of
  names_of-user = ground (arith, apart)

  names_of-other : (c : ℕ) → c ≢ root → c ≢ p + 256 → names_of root p c ≡ none
  unfolding names_of
  names_of-other c ne ne' = ground arith

  fresh-down :
      (l page c : ℕ)
      → IsUserPage page
      → Named (names_of root p) (suc l) page c
      → s'.memory c % 2 ≡ 1
      → Named (names_of root p) l page (base (s'.memory c) + 8 * slot l page)
  fresh-down l page c u e o = elim (ℕ_discrete c root) [
    | yes same ↦
        let three : l ≡ 3 =
          omega (arith, (some-pair (sym e ∙ ap (names_of root p) same ∙ names_of-root)).0) in
        ap (names_of root p) (
          ap (λ x. base (s'.memory x) + 8 * slot l page) same
          ∙ ap (λ l. base (s'.memory root) + 8 * slot l page) three
          ∙ to_user page u)
        ∙ names_of-user
        ∙ pair-some (sym three)
            (omega (arith, u.lower, u.upper) ∙ ap (λ l. above l page) (sym three))
    | no ne ↦ elim (ℕ_discrete c (p + 256)) [
      | yes same ↦ absurd (omega (arith, o, ap s'.memory same, at_user))
      | no ne' ↦ absurd (none-ne-some (sym (names_of-other c ne ne') ∙ e))
    ]
  ]

  fresh-free : (n i : ℕ) → s'.calls ≤ n → i < 4096 → names_of root p (pgalloc n pgsize + i) ≡ none
  unfolding s' p
  fresh-free n i le lt =
      let differ : p ≢ pgalloc n pgsize =
        λ e. al.distinct s.calls n (omega arith) (λ z. granted (e ∙ z)) e in
      names_of-other (pgalloc n pgsize + i) (λ e. absurd (omega (arith, f.outside n (omega arith))))
        (λ e. differ (omega (arith, al.aligned s.calls, al.aligned n)))

  tables-IsTree : IsTree pgalloc root (names_of root p) s'
  tables-IsTree = record {
    rooted = names_of-root;
    there = omega (arith, at_root, al.aligned s.calls, p_lem);
    down = fresh-down;
    free = fresh-free;
    words = fresh-words;
  }

  fresh-translate : (page : ℕ) → IsUserPage page → translate root page s'.memory ≡ none
  unfolding translate
  fresh-translate page u =
      frame_at-absent 3 (base (s'.memory root) + 8 * slot 3 page) page s'.memory
        (omega (arith, ap s'.memory (to_user page u), at_user))

-- How `protect` ends.
pub data Protected (pgalloc : ℕ → ℕ → ℕ) (root : ℕ) (s : Machine) : Paging AddrSpace → Type 0 where
  no_table : pgalloc s.calls pgsize ≡ 0 → Protected pgalloc root s (panic no_page)
  protected :
      (s' : Machine) (names : Names)
      → IsTree pgalloc root names s'
      → ((page : ℕ) → IsUserPage page → translate root page s'.memory ≡ none)
      → Protected pgalloc root s (done (record { pgsize = pgsize; area = uvm_area }) s')

-- The tables that `protect` makes are a tree.
pub fresh-IsTree :
    {pgalloc : ℕ → ℕ → ℕ} {root : ℕ} {s : Machine} (kpt : ℕ)
    → IsAllocator pgalloc
    → IsFree pgalloc root s
    → pgalloc s.calls pgsize ≢ 0
    → IsTree pgalloc root
        (names_of root (pgalloc s.calls pgsize))
        (fresh kpt root (pgalloc s.calls pgsize) s)
unfolding s' p
fresh-IsTree kpt al f ne = tables-IsTree kpt al f ne

pub fresh-none :
    {pgalloc : ℕ → ℕ → ℕ} {root : ℕ} {s : Machine} (kpt : ℕ)
    → IsAllocator pgalloc
    → IsFree pgalloc root s
    → pgalloc s.calls pgsize ≢ 0
    → (page : ℕ) → IsUserPage page
    → translate root page (fresh kpt root (pgalloc s.calls pgsize) s).memory ≡ none
unfolding s' p
fresh-none kpt al f ne page u = fresh-translate kpt al f ne page u

granted-Protected :
    {pgalloc : ℕ → ℕ → ℕ} {root : ℕ} {s : Machine} (kpt : ℕ)
    → IsAllocator pgalloc
    → IsFree pgalloc root s
    → pgalloc s.calls pgsize ≢ 0
    → Protected pgalloc root s (
        done
          (record { pgsize = pgsize; area = uvm_area })
          (fresh kpt root (pgalloc s.calls pgsize) s))
unfolding s' p
granted-Protected {pgalloc} {root} {s} kpt al f ne =
    protected (s' kpt al f ne) (names_of root (p kpt al f ne)) (tables-IsTree kpt al f ne)
      (fresh-translate kpt al f ne)

protect-refused :
    (pgalloc : ℕ → ℕ → ℕ) (kpt root : ℕ) (s : Machine)
    → pgalloc s.calls pgsize ≡ 0
    → protect pgalloc kpt root s ≡ panic no_page
unfolding protect pgallocz
protect-refused pgalloc kpt root s z = rw z

-- `protect`, where `pgalloc` answers with whole pages, away from `root`, and with none twice: the tables of
-- the new address space are a tree and translate no page of user space, and its fields hold the size
-- of a page and the area of user space; or it panics because `pgalloc` has no page.
pub protect-Protected :
    (pgalloc : ℕ → ℕ → ℕ) (kpt root : ℕ) (s : Machine)
    → IsAllocator pgalloc
    → IsFree pgalloc root s
    → Protected pgalloc root s (protect pgalloc kpt root s)
protect-Protected pgalloc kpt root s al f = elim (ℕ_discrete (pgalloc s.calls pgsize) 0) [
  | yes z ↦
      subst (Protected pgalloc root s) (sym (protect-refused pgalloc kpt root s z)) (no_table z)
  | no ne ↦
      subst (Protected pgalloc root s) (sym (protect-fresh pgalloc kpt root s al ne))
        (granted-Protected kpt al f ne)
]
