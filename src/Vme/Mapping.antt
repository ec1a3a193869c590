-- ===== src/Vme/Mapping.antt =====
-- `map` of abstract-machine/am/src/x86/qemu/vme.c as a change of the translation.
use mathlib.Core.Path.{subst}
use nju_os_lab.Prelude.{
  ℕ, ◌+◌, ◌*◌, ◌%◌, ◌^◌, ◌≤◌, ◌<◌, ◌≡◌, ◌≢◌, inl, inr, none, some, true, sym, ap, ◌∙◌, arith, ◌==◌,
}
use nju_os_lab.Prelude.Flags.{or_bits}
use nju_os_lab.Vme.{
  Machine, Paging, done, panic, no_page, remapped, not_mapped, pgsize, write, ptwalk_from, ptwalk,
  ◌>>=◌, map, set_entry, in_range, uvm_area, round_down, write_flag, mmap_none,
}
use nju_os_lab.Vme.Entries.{slot, base, page_of, round_down-base}
use nju_os_lab.Vme.Translate.{
  IsUserPage, IsAllocator, Names, Named, IsTree, frame_at, translate, missing, frame_at-absent,
  frame_at-leaf, root-Named, parity,
}
use nju_os_lab.Vme.Grow.{Keeps}
use nju_os_lab.Vme.Walk.{Reaches, Walked, no_memory, walked, ptwalk_from-Walked}
use nju_os_lab.Vme.Leaf.{
  Reaches-translate, Reaches-ptwalk_from, leaf-IsTree, leaf-others, leaf_there, leaf_written,
}
use nju_os_lab.Vme.Marks.{
  pte_word, write_flag-cases, set_entry-new, set_entry-remapped, set_entry-clear,
  set_entry-not_mapped,
}

-- A page of user space and a physical page, by their addresses.
pub record IsPagePair (va pa : ℕ) : Type 0 where
  pub user : IsUserPage (page_of va)
  pub virtual : va % 4096 ≡ 0
  pub physical : pa % 4096 ≡ 0
  pub word : pa < 2 ^ 64

-- `map` behind its guards.
abbrev pub map_entry : (ℕ → ℕ → ℕ) → (root va pa prot : ℕ) → Paging ℕ → Paging (Unit {0})
map_entry pgalloc root va pa prot r = r >>= λ cell s.
    set_entry prot pa cell s >>= λ _ s. ptwalk pgalloc root va 6 s >>= λ _ s. done tt s

map-entry :
    (pgalloc : ℕ → ℕ → ℕ) (root va pa prot : ℕ) (s : Machine)
    → IsPagePair va pa
    → map pgalloc root va pa prot s ≡ map_entry pgalloc root va pa prot (ptwalk pgalloc root va 6 s)
unfolding map or_bits
map-entry pgalloc root va pa prot s p =
    let inside : in_range va uvm_area ≡ true = ground (arith, p.user.lower, p.user.upper) in
    let va' : (va == round_down va pgsize) ≡ true =
      ground (arith, round_down-base va (omega (arith, p.user.upper)), p.virtual) in
    let pa' : (pa == round_down pa pgsize) ≡ true =
      ground (arith, round_down-base pa p.word, p.physical) in
    rw (inside, va', pa')

-- What `map` does to the translation, with access rights.
pub data Mapping (pgalloc : ℕ → ℕ → ℕ) (root page pa : ℕ) (names : Names) (s : Machine)
    : Paging (Unit {0}) → Type 0 where
  no_table :
      (n : ℕ)
      → s.calls ≤ n
      → n < s.calls + missing 4 root page s.memory
      → pgalloc n pgsize ≡ 0
      → Mapping pgalloc root page pa names s (panic no_page)
  again :
      (frame : ℕ)
      → translate root page s.memory ≡ some frame
      → Mapping pgalloc root page pa names s (panic remapped)
  mapped :
      (s' : Machine) (names' : Names)
      → translate root page s.memory ≡ none
      → IsTree pgalloc root names' s'
      → translate root page s'.memory ≡ some pa
      → ((page' : ℕ)
          → IsUserPage page'
          → page' ≢ page
          → translate root page' s'.memory ≡ translate root page' s.memory)
      → s'.calls ≡ s.calls + missing 4 root page s.memory
      → Mapping pgalloc root page pa names s (done tt s')

-- What `map` without access rights does.
pub data Unmapping (pgalloc : ℕ → ℕ → ℕ) (root page : ℕ) (names : Names) (s : Machine)
    : Paging (Unit {0}) → Type 0 where
  table_missing :
      (n : ℕ)
      → s.calls ≤ n
      → n < s.calls + missing 4 root page s.memory
      → pgalloc n pgsize ≡ 0
      → Unmapping pgalloc root page names s (panic no_page)
  nothing :
      translate root page s.memory ≡ none → Unmapping pgalloc root page names s (panic not_mapped)
  unmapped :
      (frame : ℕ) (s' : Machine) (names' : Names)
      → translate root page s.memory ≡ some frame
      → IsTree pgalloc root names' s'
      → translate root page s'.memory ≡ none
      → ((page' : ℕ)
          → IsUserPage page'
          → page' ≢ page
          → translate root page' s'.memory ≡ translate root page' s.memory)
      → s'.calls ≡ s.calls + missing 4 root page s.memory
      → Unmapping pgalloc root page names s (done tt s')

below : (va : ℕ) → IsUserPage (page_of va) → va < 2 ^ 48
below va u = omega (arith, u.upper)

-- At level 0, every user page has index 0.
at_root : {root : ℕ} (va : ℕ) → IsUserPage (page_of va) → root ≡ root + 8 * slot 4 (page_of va)
at_root va u = omega (arith, u.upper)

module _ {pgalloc : ℕ → ℕ → ℕ} {root : ℕ} (va pa : ℕ) (p : IsPagePair va pa) {names names1 : Names}
    {s s1 : Machine} (t : IsTree pgalloc root names1 s1) (k : Keeps root names s names1 s1)
    {leaf : ℕ} (n : Named names1 0 (page_of va) leaf)
    (w : Reaches (page_of va) s1.memory 4 root leaf)
    (m : s1.calls ≡ s.calls + missing 4 root (page_of va) s.memory) where
  -- The translation before, as it stands in the entry.
  before : translate root (page_of va) s.memory ≡ frame_at 0 leaf (page_of va) s1.memory
  before = sym (k.same_translation (page_of va) p.user) ∙ Reaches-translate t.there w

  module _ (v : ℕ) (lt : v < 2 ^ 64) where
    after :
        translate root (page_of va) (write leaf v s1).memory
        ≡ frame_at 0 leaf (page_of va) (write leaf v s1).memory
    after = (leaf_there t (page_of va) leaf v p.user n w).1

    others :
        (page' : ℕ)
        → IsUserPage page'
        → page' ≢ page_of va
        → translate root page' (write leaf v s1).memory ≡ translate root page' s.memory
    others page' u ne =
        leaf-others t (page_of va) leaf v p.user n page' u ne ∙ k.same_translation page' u

    -- The second `ptwalk` of `map`.
    second_walk :
        (ptwalk pgalloc root va 6 (write leaf v s1) >>= λ _ s. done tt s)
        ≡ done tt (write leaf v s1)
    unfolding ptwalk
    second_walk =
        let there =
          subst (λ c. Reaches (page_of va) (write leaf v s1).memory 4 c leaf) (at_root va p.user)
            ((leaf_there t (page_of va) leaf v p.user n w).0) in
        ap (λ r. r >>= λ _ s. done tt s)
          (Reaches-ptwalk_from pgalloc va 6 (below va p.user)
            (leaf-IsTree t (page_of va) leaf v p.user n lt).words 4 root (omega arith) there)

  -- `map` behind its write.
  behind : Paging (Unit {0}) → Paging (Unit {0})
  behind r = r >>= λ _ s. ptwalk pgalloc root va 6 s >>= λ _ s. done tt s

  -- `map` at an entry that is there, with access rights.
  entry-Mapping :
      (prot : ℕ)
      → prot ≢ mmap_none
      → Mapping pgalloc root
          (page_of va)
          pa
          names
          s
          (map_entry pgalloc root va pa prot (done leaf s1))
  unfolding behind
  entry-Mapping prot ne = elim (parity (s1.memory leaf)) [
    | inr o ↦
        subst (λ r. Mapping pgalloc root (page_of va) pa names s (behind r))
          (sym (set_entry-remapped prot pa leaf s1 ne o))
          (again (base (s1.memory leaf)) (before ∙ frame_at-leaf leaf (page_of va) s1.memory o))
    | inl z ↦
        let (f, e, odd, small) =
          pte_word pa (write_flag prot) p.physical p.word (write_flag-cases prot) in
        let v = pa + f in
        let lt : v < 2 ^ 64 = omega (arith, p.physical, p.word) in
        let written = leaf_written t (page_of va) leaf v p.user n in
        subst (λ r. Mapping pgalloc root (page_of va) pa names s (behind r))
          (sym (set_entry-new prot pa leaf s1 ne z ∙ ap (λ w. done tt (write leaf w s1)) e))
          (subst (Mapping pgalloc root (page_of va) pa names s) (sym (second_walk v lt)) (
            mapped (write leaf v s1) names1
              (before ∙ frame_at-absent 0 leaf (page_of va) s1.memory z)
              (leaf-IsTree t (page_of va) leaf v p.user n lt)
              (after v lt
                ∙ frame_at-leaf leaf (page_of va) (write leaf v s1).memory
                    (omega (arith, written, p.physical))
                ∙ ap some (ap base written ∙ omega (arith, p.physical)))
              (others v lt) m))
  ]

  -- And without access rights.
  entry-Unmapping :
      Unmapping pgalloc root
        (page_of va)
        names
        s
        (map_entry pgalloc root va pa mmap_none (done leaf s1))
  unfolding behind
  entry-Unmapping = elim (parity (s1.memory leaf)) [
    | inl z ↦
        subst (λ r. Unmapping pgalloc root (page_of va) names s (behind r))
          (sym (set_entry-not_mapped pa leaf s1 z))
          (nothing (before ∙ frame_at-absent 0 leaf (page_of va) s1.memory z))
    | inr o ↦
        let lt : 0 < 2 ^ 64 = omega arith in
        let written = leaf_written t (page_of va) leaf 0 p.user n in
        subst (λ r. Unmapping pgalloc root (page_of va) names s (behind r))
          (sym (set_entry-clear pa leaf s1 o))
          (subst (Unmapping pgalloc root (page_of va) names s) (sym (second_walk 0 lt)) (
            unmapped (base (s1.memory leaf)) (write leaf 0 s1) names1
              (before ∙ frame_at-leaf leaf (page_of va) s1.memory o)
              (leaf-IsTree t (page_of va) leaf 0 p.user n lt)
              (after 0 lt
                ∙ frame_at-absent 0 leaf (page_of va) (write leaf 0 s1).memory
                    (omega (arith, written)))
              (others 0 lt) m))
  ]

module _ {pgalloc : ℕ → ℕ → ℕ} {root : ℕ} (va pa : ℕ) (p : IsPagePair va pa) {names : Names}
    {s : Machine} where
  Walked-Mapping :
      (prot : ℕ) {r : Paging ℕ}
      → prot ≢ mmap_none
      → Walked pgalloc root 4 root (page_of va) names s r
      → Mapping pgalloc root (page_of va) pa names s (map_entry pgalloc root va pa prot r)
  Walked-Mapping prot ne (no_memory c le lt z) = no_table c le lt z
  Walked-Mapping prot ne (walked leaf s1 names1 t k n w m) = entry-Mapping va pa p t k n w m prot ne

  Walked-Unmapping :
      {r : Paging ℕ}
      → Walked pgalloc root 4 root (page_of va) names s r
      → Unmapping pgalloc root (page_of va) names s (map_entry pgalloc root va pa mmap_none r)
  Walked-Unmapping (no_memory c le lt z) = table_missing c le lt z
  Walked-Unmapping (walked leaf s1 names1 t k n w m) = entry-Unmapping va pa p t k n w m

  -- The first `ptwalk` of `map`.
  first_walk :
      IsAllocator pgalloc
      → IsTree pgalloc root names s
      → Walked pgalloc root 4 root (page_of va) names s (ptwalk pgalloc root va 6 s)
  unfolding ptwalk
  first_walk al t =
      subst (λ c. Walked pgalloc root 4 c (page_of va) names s (ptwalk_from pgalloc 4 root va 6 s))
        (sym (at_root va p.user))
        (ptwalk_from-Walked pgalloc va al p.user 4 root names s t (omega arith) (
          subst (Named names 4 (page_of va)) (at_root va p.user)
            (root-Named t (page_of va) p.user)))

-- `map` with access rights, of a page of user space to a physical page, both at addresses of whole
-- pages, in an address space whose tables are a tree, where `pgalloc` answers with whole pages and
-- with none twice: if the page was not mapped it is then translated to the physical page, the
-- translation of all other user pages stays, the tables are a tree again, and `pgalloc` was called
-- once for each table that was missing. A page that is mapped already is a panic. The only other
-- end is a panic because one of the answers of `pgalloc` for the missing tables is `NULL`.
pub map-Mapping :
    (pgalloc : ℕ → ℕ → ℕ) (root va pa prot : ℕ) (names : Names) (s : Machine)
    → IsAllocator pgalloc
    → IsTree pgalloc root names s
    → IsPagePair va pa
    → prot ≢ mmap_none
    → Mapping pgalloc root (page_of va) pa names s (map pgalloc root va pa prot s)
map-Mapping pgalloc root va pa prot names s al t p ne =
    subst (Mapping pgalloc root (page_of va) pa names s)
      (sym (map-entry pgalloc root va pa prot s p))
      (Walked-Mapping va pa p prot ne (first_walk va pa p al t))

-- `map` without access rights, of a page of user space, in an address space whose tables are a
-- tree, where `pgalloc` answers with whole pages and with none twice, and with an address of a
-- whole page for the physical page, which is not used: if the page was mapped it is then not
-- translated, the translation of all other user pages stays, and the tables are a tree again. A
-- page that is not mapped is a panic. The only other end is a panic because one of the answers of
-- `pgalloc` for the missing tables is `NULL`.
pub map-Unmapping :
    (pgalloc : ℕ → ℕ → ℕ) (root va pa : ℕ) (names : Names) (s : Machine)
    → IsAllocator pgalloc
    → IsTree pgalloc root names s
    → IsPagePair va pa
    → Unmapping pgalloc root (page_of va) names s (map pgalloc root va pa mmap_none s)
map-Unmapping pgalloc root va pa names s al t p =
    subst (Unmapping pgalloc root (page_of va) names s)
      (sym (map-entry pgalloc root va pa mmap_none s p))
      (Walked-Unmapping va pa p (first_walk va pa p al t))
