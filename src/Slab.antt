-- ===== src/Slab.antt =====
-- kernel/src/slab.c and kernel/include/slab.h: the object allocator. A slab is one page of 4096 bytes:
-- a header, and blocks of one size class, of which the free ones are linked. Each CPU has a list of
-- slabs for each class. What is modelled is the build without `DEBUG`, calls come one after another.
-- The headers of slabs and the links in free blocks are functions of the address: the memory that
-- they stand in is that of `page_alloc`.
pub mod Layout
pub mod Chain
pub mod Free
pub mod Valid
pub mod Blocks
pub mod Lists
pub mod Pages
pub mod Cache
pub mod Served
pub mod Alloc
pub mod Return
pub mod Sample
mod Tests
use nju_os_lab.Prelude.{
  ℕ, zero, suc, ◌+◌, ◌-◌, ◌/◌, ◌%◌, ◌^◌, Bool, not, ◌||◌, ltb, leb, ◌==◌, if◌then◌else◌, update,
  none, some, u64, sub64,
}
use nju_os_lab.Common.{null, lock, unlock, try_lock, align_ptr, is_aligned}
use nju_os_lab.Buddy.{PageSystem}
use nju_os_lab.Buddy.Alloc.{page_alloc}
use nju_os_lab.Buddy.Free.{page_free, Freed}

-- `SLAB_SPACE`, and the classes of `enum SLAB_SIZE` that the code names
abbrev pub slab_space : ℕ
slab_space = 2 ^ 12

abbrev pub s_8b : ℕ
s_8b = 3

abbrev pub s_64b : ℕ
s_64b = 6

abbrev pub s_refuse : ℕ
s_refuse = 12

abbrev pub slab_size_offset : ℕ
slab_size_offset = 3

-- `sizeof(Slab)`
abbrev pub slab_header : ℕ
slab_header = 40

-- `struct SLAB`
pub record Slab : Type 0 where
  pub locked : ℕ
  pub cpu_id : ℕ
  pub block_num : ℕ
  pub type : ℕ
  pub free_list : ℕ
  pub free_block_num : ℕ
  pub append : ℕ

-- The page allocator, the slabs and the field `next` of free blocks by their address, and
-- `slabs_of_cpu`.
pub record Slabs : Type 0 where
  pub pages : PageSystem
  pub slab : ℕ → Slab
  pub next : ℕ → ℕ
  pub heads : ℕ → ℕ → ℕ

-- How a call ends: `stuck` waits for a lock that nobody releases, `fault` is an access through `NULL`
-- or outside of an array, `out_of_fuel` is of the model.
pub data Result (A : Type 0) : Type 0 where
  done : A → Slabs → Result A
  stuck : Result A
  fault : Result A
  out_of_fuel : Result A

-- A write to the lock of a slab.
abbrev pub set_locked : (slab word : ℕ) → Slabs → Slabs
set_locked a w s = record s { slab = update s.slab a (record (s.slab a) { locked = w }) }

-- The loop of `trans_slab_size`, with the rounds left.
pub trans_slab_size_loop : ℕ → (stype size : ℕ) → ℕ
trans_slab_size_loop zero stype size = s_refuse
trans_slab_size_loop (suc n) stype size =
    let rest = trans_slab_size_loop n (stype + 1) size in
    if leb size (2 ^ stype) then stype else rest

-- `trans_slab_size`: nine classes in turn.
unfoldable pub trans_slab_size : ℕ → ℕ
unfolding trans_slab_size_loop
trans_slab_size size = trans_slab_size_loop 9 s_8b size

-- `slab_ocupy` of `slab_init`: the header, rounded up.
unfoldable pub slab_ocupy : ℕ → ℕ
unfolding align_ptr
slab_ocupy size = align_ptr slab_header (if leb s_64b size then size else s_64b)

-- The number of blocks behind the header.
abbrev pub block_count : ℕ → ℕ
block_count size = sub64 slab_space (slab_ocupy size) / 2 ^ size

-- The loop of `slab_init`: `count` blocks from `block` on are put in front of the free list.
unfoldable pub carve : (count block size : ℕ) → (ℕ → ℕ) → ℕ → (ℕ → ℕ) × ℕ
carve zero block size next free_list = (next, free_list)
carve (suc n) block size next free_list =
    carve n (u64 (block + 2 ^ size)) size (update next block free_list) block

-- The rest of `slab_init`, on a page at `addr`.
unfoldable pub format_slab : (cpu size addr : ℕ) → Slabs → Slabs
format_slab cpu size addr s =
    let count = block_count size in
    let (next, free_list) = carve count (u64 (addr + slab_ocupy size)) size s.next null in
    let head = s.heads cpu (size - slab_size_offset) in
    record s {
      next = next;
      slab = update s.slab addr (record {
        locked = 0;
        cpu_id = cpu;
        block_num = count;
        type = size;
        free_list = free_list;
        free_block_num = count;
        append = head;
      });
      heads = update s.heads cpu (update (s.heads cpu) (size - slab_size_offset) addr);
    }

-- `slab_init`: the address of the new slab, or `null`.
unfoldable pub slab_init : (cpu size : ℕ) → Slabs → Result ℕ
slab_init cpu size s = elim (page_alloc slab_space s.pages) [
  | none ↦ stuck
  | some (addr, pages) ↦
      let s' = record s { pages = pages } in
      if addr == null
      then done null s'
      else if not (addr % 2 ^ 12 == 0)
      then done null s'
      else done addr (format_slab cpu size addr s')
]

-- `alloc_block_from_slab`
unfoldable pub alloc_block_from_slab : (slab : ℕ) → Slabs → ℕ × Slabs
alloc_block_from_slab a s =
    let block = (s.slab a).free_list in
    if (a == null) || ((s.slab a).free_block_num == 0) then (null, s) else (
      block,
      record s {
        slab = update s.slab a (record (s.slab a) {
          free_list = s.next block;
          free_block_num = (s.slab a).free_block_num - 1;
        });
      },
    )

-- The end of `slab_alloc`, with the lock of the slab held.
unfoldable pub take_block : (slab req_size : ℕ) → Slabs → Result ℕ
take_block a req_size s =
    let (addr, s') = alloc_block_from_slab a s in
    let s'' = set_locked a (unlock (s'.slab a).locked) s' in
    if is_aligned addr req_size then done addr s'' else done null s''

-- The loop of `slab_alloc`, on fuel, with the lock of slab `a` held: the slab with a free block, whose
-- lock is then held, or `null`.
unfoldable pub walk : (fuel slab : ℕ) → Slabs → Result ℕ
walk zero a s = out_of_fuel
walk (suc f) a s =
    let append = (s.slab a).append in
    let on =
      λ (w : ℕ). walk f append (set_locked a (unlock (s.slab a).locked) (set_locked append w s)) in
    if ltb 0 (s.slab a).free_block_num
    then done a s
    else if append == null
    then done null (set_locked a (unlock (s.slab a).locked) s)
    else elim (lock (s.slab append).locked) [ none ↦ stuck | some w ↦ on w ]

-- The lock of a new slab, and the test behind it.
unfoldable pub use_new : (slab req_size : ℕ) → Slabs → Result ℕ
use_new a req_size s = elim (lock (s.slab a).locked) [
  | none ↦ stuck
  | some w ↦
      if (s.slab a).free_block_num == 0
      then done null (set_locked a (unlock w) s)
      else take_block a req_size (set_locked a w s)
]

-- `slab_alloc` from the label `REQUEST_NEW_SLAB` on, without a slab.
unfoldable pub request_new_slab : (cpu req_size : ℕ) → Slabs → Result ℕ
request_new_slab cpu req_size s = elim (slab_init cpu req_size s) [
  | done a s' ↦ if a == null then done null s' else use_new a req_size s'
  | stuck ↦ stuck
  | fault ↦ fault
  | out_of_fuel ↦ out_of_fuel
]

-- `slab_alloc` behind the loop.
abbrev pub after_walk : (cpu req_size : ℕ) → Result ℕ → Result ℕ
after_walk cpu req_size (done a s) =
    if a == null then request_new_slab cpu req_size s else take_block a req_size s
after_walk cpu req_size stuck = stuck
after_walk cpu req_size fault = fault
after_walk cpu req_size out_of_fuel = out_of_fuel

-- `slab_alloc` for a class of `slab.h`.
unfoldable pub alloc_in_class : (fuel cpu req_size : ℕ) → Slabs → Result ℕ
alloc_in_class fuel cpu req_size s =
    let head = s.heads cpu (req_size - slab_size_offset) in
    if head == null then request_new_slab cpu req_size s else elim (lock (s.slab head).locked) [
      | none ↦ stuck
      | some w ↦ after_walk cpu req_size (walk fuel head (set_locked head w s))
    ]

-- `slab_alloc`
unfoldable pub slab_alloc : (fuel cpu size : ℕ) → Slabs → Result ℕ
slab_alloc fuel cpu size s =
    if trans_slab_size size == s_refuse
    then elim (page_alloc size s.pages) [
      | none ↦ stuck
      | some (addr, pages) ↦ done addr (record s { pages = pages })
    ]
    else alloc_in_class fuel cpu (trans_slab_size size) s
