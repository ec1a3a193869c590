-- ===== src/Vme.antt =====
-- abstract-machine/am/src/x86/qemu/vme.c as built for x86_64: page tables of four levels behind the field
-- `ptr` of an address space. Memory holds 64-bit words at byte addresses, one in each eight bytes.
-- `pgalloc` is a parameter: its answer to each call in turn, 0 for `NULL`. Pages that `pgfree` takes
-- are listed, the last one first.
pub mod Entries
pub mod Translate
pub mod Grow
pub mod Walk
pub mod Leaf
pub mod Marks
pub mod Mapping
pub mod Fresh
pub mod Teardown
pub mod History
mod Tests
use nju_os_lab.Prelude.Masks.{and_bits}
use nju_os_lab.Prelude.Flags.{or_bits}
use nju_os_lab.Prelude.{
  ℕ, zero, suc, ◌+◌, ◌-◌, ◌*◌, ◌/◌, ◌^◌, Bool, true, false, not, ◌&&◌, Option, none, some, List, [],
  ◌∷◌, ltb, leb, ◌==◌, if◌then◌else◌, update, sub64,
}

-- `PTE_P`, `PTE_W`, `PTE_U`
abbrev pub pte_p : ℕ
pte_p = 1

abbrev pub pte_w : ℕ
pte_w = 2

abbrev pub pte_u : ℕ
pte_u = 4

-- `MMAP_NONE`, `MMAP_WRITE`
abbrev pub mmap_none : ℕ
mmap_none = 0

abbrev pub mmap_write : ℕ
mmap_write = 2

-- `struct ptinfo`
pub record PtInfo : Type 0 where
  pub mask : ℕ
  pub shift : ℕ
  pub bits : ℕ

-- `mmu`: the size of a page, the number of levels, and the table of the levels.
abbrev pub pgsize : ℕ
pgsize = 4096

abbrev pub ptlevels : ℕ
ptlevels = 4

unfoldable pub pgtables : ℕ → PtInfo
pgtables zero = record { mask = 0; shift = 0; bits = 0 }
pgtables (suc zero) = record { mask = 0xff8000000000; shift = 39; bits = 9 }
pgtables (suc (suc zero)) = record { mask = 0x7fc0000000; shift = 30; bits = 9 }
pgtables (suc (suc (suc zero))) = record { mask = 0x3fe00000; shift = 21; bits = 9 }
pgtables (suc (suc (suc (suc i)))) = record { mask = 0x1ff000; shift = 12; bits = 9 }

-- `Area`
pub record Area : Type 0 where
  pub start : ℕ
  pub end : ℕ

-- The two entries of `vm_areas`: `uvm_area`, and the one of the kernel.
abbrev pub uvm_area : Area
uvm_area = record { start = 0x100000000000; end = 0x108000000000 }

abbrev pub kernel_area : Area
kernel_area = record { start = 0; end = 0x8000000000 }

-- `struct vm_area` and `vm_areas`
pub record VmArea : Type 0 where
  pub area : Area
  pub kernel : Bool

abbrev pub vm_areas : List VmArea
vm_areas =
    record { area = uvm_area; kernel = false } ∷ record { area = kernel_area; kernel = true } ∷ []

-- `AddrSpace`, but for `ptr`, which stands in the memory.
pub record AddrSpace : Type 0 where
  pub pgsize : ℕ
  pub area : Area

pub data Panic : Type 0 where
  no_page : Panic
  invalid_address : Panic
  off_boundary : Panic
  not_mapped : Panic
  remapped : Panic

pub record Machine : Type 0 where
  pub memory : ℕ → ℕ
  pub calls : ℕ
  pub freed : List ℕ

-- How a call ends.
pub data Paging (A : Type 0) : Type 0 where
  done : A → Machine → Paging A
  panic : Panic → Paging A

abbrev pub write : (addr word : ℕ) → Machine → Machine
write a v s = record s { memory = update s.memory a v }

infix 1 ◌>>=◌
abbrev pub ◌>>=◌ : {A B : Type 0} → Paging A → (A → Machine → Paging B) → Paging B
done a s >>= f = f a s
panic e >>= f = panic e

-- `indexof`
unfoldable pub indexof : ℕ → PtInfo → ℕ
indexof addr info = and_bits 64 addr info.mask / 2 ^ info.shift

-- `baseof`
unfoldable pub baseof : ℕ → ℕ
baseof addr = and_bits 64 addr (2 ^ 64 - pgsize)

-- `&pt[index]`
abbrev pub entry : (pt index : ℕ) → ℕ
entry pt index = pt + 8 * index

-- The loop of `pgallocz`, with the entries left.
unfoldable pub clear : (n base : ℕ) → (ℕ → ℕ) → ℕ → ℕ
clear zero base m = m
clear (suc n) base m = clear n (base + 8) (update m base 0)

-- `(pt[index] & flag) != 0`
abbrev pub has : (flag word : ℕ) → Bool
has flag word = not (and_bits 64 word flag == 0)

-- `IN_RANGE`, `ROUNDDOWN`
abbrev pub in_range : ℕ → Area → Bool
in_range ptr area = leb area.start ptr && ltb ptr area.end

abbrev pub round_down : (a sz : ℕ) → ℕ
round_down a sz = and_bits 64 a (2 ^ 64 - sz)

-- The inner loop of `protect`, with the rounds left until `cur` is the end of the area.
unfoldable pub share : (n kpt upt cur : ℕ) → (ℕ → ℕ) → ℕ → ℕ
share zero kpt upt cur m = m
share (suc n) kpt upt cur m =
    let index = indexof cur (pgtables 1) in
    share n kpt upt (cur + 2 ^ (pgtables 1).shift)
      (update m (entry upt index) (m (entry kpt index)))

-- The loops of `protect`: the entries of the kernel areas are those of `kpt`.
unfoldable pub share_areas : (kpt upt : ℕ) → List VmArea → (ℕ → ℕ) → ℕ → ℕ
unfolding share
share_areas kpt upt [] m = m
share_areas kpt upt (vma ∷ vmas) m =
    let area = vma.area in
    let rounds = (area.end - area.start) / 2 ^ (pgtables 1).shift in
    share_areas kpt upt vmas (if vma.kernel then share rounds kpt upt area.start m else m)

-- `(prot & MMAP_WRITE) ? PTE_W : 0`
abbrev pub write_flag : ℕ → ℕ
write_flag prot = if and_bits 32 prot mmap_write == 0 then 0 else pte_w

-- The loop of `teardown` over the entries of a table.
unfoldable pub visit_tables : (count index pt : ℕ) → (ℕ → Machine → Machine) → Machine → Machine
visit_tables zero index pt visit s = s
visit_tables (suc n) index pt visit s =
    let word = s.memory (entry pt index) in
    let s' = if has pte_p word && has pte_u word then visit (baseof word) s else s in
    visit_tables n (index + 1) pt visit s'

-- `teardown` at `level = ptlevels + 1 - left`.
unfoldable pub teardown : (left pt : ℕ) → Machine → Machine
unfolding visit_tables
teardown zero pt s = s
teardown (suc left) pt s =
    let level = ptlevels - left in
    let s' = visit_tables (2 ^ (pgtables level).bits) 0 pt (λ pt s. teardown left pt s) s in
    if leb 1 level then record s' { freed = pt ∷ s'.freed } else s'

-- `unprotect`, for the address `root` of `as->ptr`.
unfoldable pub unprotect : (root : ℕ) → Machine → Machine
unprotect root s = teardown (ptlevels + 1) root s

-- `PML4_ADDR`, `CR0_PG`
abbrev pub pml4_addr : ℕ
pml4_addr = 0x1000

abbrev pub cr0_pg : ℕ
cr0_pg = 0x80000000

-- The registers that `vme_init` sets, and `kpt`.
pub record Control : Type 0 where
  pub kpt : ℕ
  pub cr0 : ℕ
  pub cr3 : ℕ

-- `vme_init` on x86_64, on CPU `cpu`; it panics on others than the first. The functions that it keeps are
-- the parameter `pgalloc` and the list of freed pages.
unfoldable pub vme_init : (cpu : ℕ) → Control → Option Control
vme_init cpu c =
    if not (cpu == 0)
    then none
    else some (record { kpt = pml4_addr; cr0 = or_bits 64 c.cr0 cr0_pg; cr3 = pml4_addr })

-- `ucontext` on x86_64: the fields that it sets, all others are 0. `sizeof(Context)` is 176.
pub record Context : Type 0 where
  pub at : ℕ
  pub cs : ℕ
  pub ss : ℕ
  pub rip : ℕ
  pub rflags : ℕ
  pub rsp : ℕ
  pub rsp0 : ℕ
  pub cr3 : ℕ

-- `USEL`, for segments 3 and 4: the low bits of the shifted number are 0.
abbrev pub usel : ℕ → ℕ
usel seg = seg * 2 ^ 3 + 3

unfoldable pub ucontext : (root kstack_end func : ℕ) → Machine → Context
ucontext root kstack_end func s = record {
  at = sub64 kstack_end 176;
  cs = usel 3;
  ss = usel 4;
  rip = func;
  rflags = 0x200;
  rsp = uvm_area.end;
  rsp0 = kstack_end;
  cr3 = s.memory root;
}

-- The write of `map` to the entry `cell`.
unfoldable pub set_entry : (prot pa cell : ℕ) → Machine → Paging (Unit {0})
set_entry prot pa cell s =
    let mapped = has pte_p (s.memory cell) in
    if prot == mmap_none
    then if mapped then done tt (write cell 0 s) else panic not_mapped
    else if mapped
    then panic remapped
    else done tt
        (write cell (or_bits 64 (or_bits 64 (or_bits 64 pa pte_p) pte_u) (write_flag prot)) s)

module _ (pgalloc : (call size : ℕ) → ℕ) where
  -- `pgallocz`: 512 entries of eight bytes are cleared.
  unfoldable pub pgallocz : Machine → Paging ℕ
  pgallocz s =
      let base = pgalloc s.calls pgsize in
      let s' = record s { calls = suc s.calls } in
      if base == 0
      then panic no_page
      else done base (record s' { memory = clear (pgsize / 8) base s.memory })

  -- `next_page` of a round of `ptwalk`: a missing table is allocated.
  unfoldable pub next_page : (cell flags : ℕ) → Machine → Paging ℕ
  next_page cell flags s =
      if not (has pte_p (s.memory cell))
      then (pgallocz s >>= λ page s.
          done page (write cell (or_bits 64 (or_bits 64 page pte_p) flags) s))
      else done (baseof (s.memory cell)) s

  -- The loop of `ptwalk` from level `i = ptlevels - left` on, with `cur` in the table of that level.
  unfoldable pub ptwalk_from : (left cur addr flags : ℕ) → Machine → Paging ℕ
  ptwalk_from zero cur addr flags s = done (entry cur (indexof addr (pgtables ptlevels))) s
  ptwalk_from (suc left) cur addr flags s =
      next_page (entry cur (indexof addr (pgtables (ptlevels - suc left)))) flags s >>= λ page s.
      ptwalk_from left page addr flags s

  -- `ptwalk`, for the address `root` of `as->ptr`: the address of the entry.
  unfoldable pub ptwalk : (root addr flags : ℕ) → Machine → Paging ℕ
  unfolding ptwalk_from
  ptwalk root addr flags s = ptwalk_from ptlevels root addr flags s

  -- `protect`, but for the sizes: the address of the new table and its kernel entries.
  unfoldable pub protect : (kpt root : ℕ) → Machine → Paging AddrSpace
  protect kpt root s = pgallocz s >>= λ upt s.
      let shared = record s { memory = share_areas kpt upt vm_areas s.memory } in
      done (record { pgsize = pgsize; area = uvm_area })
        (write root (or_bits 64 (or_bits 64 upt pte_p) pte_u) shared)

  -- `map`, for the address `root` of `as->ptr`.
  unfoldable pub map : (root va pa prot : ℕ) → Machine → Paging (Unit {0})
  map root va pa prot s =
      if not (in_range va uvm_area)
      then panic invalid_address
      else if not ((va == round_down va pgsize) && (pa == round_down pa pgsize))
      then panic off_boundary
      else (ptwalk root va (or_bits 64 pte_w pte_u) s >>= λ cell s.
          set_entry prot pa cell s >>= λ _ s.
          ptwalk root va (or_bits 64 pte_w pte_u) s >>= λ _ s. done tt s)
